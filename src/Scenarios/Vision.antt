-- ===== src/Scenarios/Vision.antt =====
-- A scenario with one event that has one plate. The nodes of its document are numbered: 0 is the
-- document, 1 its events, 2 the event, 3 its offset, 4 its plates, 5 the plate, 6 its text and 7 its
-- confidences; 8 is a number of loops that does not fit 32 bits.
use alpr_li_dar_gate_automat.Base.{
  ℕ, zero, suc, false, [], ◌∷◌, Option, some, none, ◌≡◌, inr, refl, arith, if◌then◌else◌, ◌==◌,
  ◌||◌, ◌<◌, All, length, map, take,
}
use alpr_li_dar_gate_automat.Scenarios.Server.{hundredths}
use alpr_li_dar_gate_automat.Server.Vision.Scenario.{
  JsonApi, Key, ScenarioEvent, and_then, require, check_fraction, require_confidence, parse_text,
  parse_pixel_box, parse_plate, parse_each, parse_array, parse_offset, parse_event, parse_loops,
  parse_events,
}
use alpr_li_dar_gate_automat.Server.Vision.Playback.{ScenarioSource, from_json, from_root, new}
use alpr_li_dar_gate_automat.Server.Vision.Checked.{from_json-IsEvent, IsEvent}
use alpr_li_dar_gate_automat.Server.Vision.Replay.{play, play-new, repeated, content}

abbrev member_of : ℕ → Key → Option ℕ
member_of zero Key.events = some 1
member_of (suc (suc zero)) Key.offset_ms = some 3
member_of (suc (suc zero)) Key.plates = some 4
member_of (suc (suc (suc (suc (suc zero))))) Key.text = some 6
member_of (suc (suc (suc (suc (suc zero))))) Key.detection_conf = some 7
member_of (suc (suc (suc (suc (suc zero))))) Key.ocr_conf = some 7
member_of _ _ = none

abbrev json : JsonApi hundredths
json = record {
  Json = ℕ;
  parse = λ s. some 0;
  find = member_of;
  is_object = λ n. n == 0 || n == 2 || n == 5;
  is_array = λ n. n == 1 || n == 4;
  is_string = λ n. n == 6;
  is_number = λ n. n == 7 || n == 3;
  is_number_integer = λ n. n == 3 || n == 8;
  elements = λ n. if n == 1 then 2 ∷ [] else if n == 4 then 5 ∷ [] else [];
  get_string = λ n. b'K' ∷ [];
  get_float = λ n. 190;
  get_int64 = λ n. (false, if n == 8 then 4_294_967_296 else 5);
  value_uint = λ n key d. some d;
  value_float = λ n key d. some d;
  value_string = λ n key d. some d;
  one_float = 200;
}

abbrev arrival : ScenarioEvent hundredths
arrival = record {
  offset = 5;
  plates =
      record {
        text = b'K' ∷ [];
        detection_conf = 190;
        ocr_conf = 190;
        box = record { x = 0; y = 0; width = 0; height = 0 };
        country_hint = [];
        raw_ocr = [];
      }
      ∷ [];
  vehicles = [];
}

abbrev source : ScenarioSource hundredths
source = new (arrival ∷ []) 1

accepted : from_json json [] ≡ inr source
unfolding from_json from_root and_then require check_fraction require_confidence parse_text
    parse_pixel_box parse_plate parse_each parse_array parse_offset parse_event parse_loops
    parse_events
accepted = refl

from_json-IsEvent_example :
    (0 < length source.events)
    × All (IsEvent json) source.events
    × (source ≡ new source.events source.loops)
from_json-IsEvent_example = from_json-IsEvent json [] source accepted

play-new_example :
    play ((0, 9) ∷ (4, 9) ∷ (6, 9) ∷ []) (new (arrival ∷ []) 2)
    ≡ take 3 (map content (repeated 2 (arrival ∷ [])))
play-new_example = play-new ((0, 9) ∷ (4, 9) ∷ (6, 9) ∷ []) (arrival ∷ []) 2 (omega arith)

-- 2 ^ 32 loops are accepted, and are none.
no_loops : parse_loops json (some 8) ≡ inr 0
unfolding parse_loops
no_loops = refl
