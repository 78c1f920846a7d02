-- ===== src/Scenarios/Update.antt =====
-- An update of 32 bytes that is installed. The hash of this libsodium is the text itself.
use mathlib.Core.List.{append-nil, append_assoc}
use alpr_li_dar_gate_automat.Ota.Updater.Progress.{Grows, download_lem, reached, Rises}
use alpr_li_dar_gate_automat.Ota.Updater.Exclusive.{
  accepted, outcomes, reaches_balance, ends, begins, fresh,
}
use alpr_li_dar_gate_automat.Ota.Updater.Calls.{run-IsOrderly, IsOrderly}
use alpr_li_dar_gate_automat.Ota.Updater.Staged.{run_inner-IsStaged, IsStaged, run_inner-staged}
use alpr_li_dar_gate_automat.Ota.Updater.Chunks.{
  readback_sha256_lem, FailsWithin, Holds, IsStreaming, sha256,
}
use alpr_li_dar_gate_automat.Base.{
  bytes_eq, ltb, ℕ, true, false, List, [], ◌∷◌, ◌++◌, Option, some, none, ◌≡◌, ◌+◌, ◌⊎◌, inl, inr,
  refl, take, drop, replicate, arith, if◌then◌else◌, map, length, ◌≤◌, ◌/◌,
}
use alpr_li_dar_gate_automat.Ota.Manifest.{
  Manifest, https, validate, same_text, starts_with, hex_decode, decode_bytes, hex_nibble,
}
use alpr_li_dar_gate_automat.Ota.Updater.{
  done, EspErr, progress, readback_failed, verify_memory, Libraries, Config, Attempt, Key,
  version_key, url_key, key_id_key, size_key, uptime_key, sha256_key, signature_key, OtaUpdater,
  run_inner, fetch_json, parse_manifest, copy_json_str, decoded, number, accept, install, download,
  percent, check_image, readback_sha256, readback_loop, check_key, begin, run,
}

abbrev members : Key → Option (List ℕ)
members version_key = some (b'2' ∷ [])
members url_key = some (https ++ b'h' ∷ [])
members key_id_key = some (b'k' ∷ [])
members sha256_key = some (replicate 64 b'0')
members signature_key = some (replicate 128 b'0')
members _ = none

abbrev numbers : Key → Option ℕ
numbers size_key = some 32
numbers uptime_key = some 60
numbers _ = none

abbrev libraries : Libraries
libraries = record {
  Json = List ℕ;
  Double = ℕ;
  parse = λ text. some text;
  string_item = λ root. members;
  number_item = λ root. numbers;
  is_positive = λ d. ltb 0 d;
  is_nonnegative = λ d. true;
  to_uint32 = λ d. d;
  Hash = List ℕ;
  sha256_init = [];
  sha256_update = λ st bytes. st ++ bytes;
  sha256_final = λ st. st;
  verify_detached = λ signature digest key. bytes_eq key digest;
}

abbrev config : Config
config = record { running_version = b'1' ∷ []; pubkey_hex = replicate 64 b'0' }

abbrev flash : List ℕ
flash = replicate 40 0

abbrev attempt : Attempt
attempt = record {
  client_made = true;
  connected = true;
  status = 200;
  manifest_heap = true;
  body = b'{' ∷ b'}' ∷ [];
  partition_size = some 40;
  time_us = 100_000_000;
  begun = true;
  lengths = 0 ∷ 10 ∷ 11 ∷ 32 ∷ [];
  performed = true;
  complete = true;
  chunk_heap = true;
  read = λ off n. some (take n (drop off flash));
  finishes = true;
}

abbrev updater : OtaUpdater
updater = record { has_done = true; has_progress = true; running = true }

streaming : IsStreaming libraries
streaming = record { absorbs = λ st s t. append_assoc st s t; absorbs_nil = λ st. append-nil st }

holds : Holds attempt.read flash
holds off n buf e = ground (arith, e)

is_staged : (run_inner libraries config true attempt).1 ≡ none
unfolding run_inner fetch_json parse_manifest copy_json_str decoded number accept validate same_text
    starts_with install download percent check_image readback_sha256 readback_loop check_key
    hex_decode decode_bytes hex_nibble
is_staged = refl

run_inner-IsStaged_example : (m : Manifest) × IsStaged libraries config attempt flash m
run_inner-IsStaged_example =
    run_inner-IsStaged libraries config true attempt flash streaming holds is_staged

run_inner-staged_example : (run_inner libraries config true attempt).1 ≡ none
run_inner-staged_example =
    run_inner-staged libraries config true attempt flash run_inner-IsStaged_example.0 streaming
      holds run_inner-IsStaged_example.1 refl (λ (off, n, e, _, _). ground (arith, e))

readback_sha256_lem_example :
    (readback_sha256 libraries attempt 32 ≡ inr (sha256 libraries (take 32 flash)))
    ⊎ ((readback_sha256 libraries attempt 32 ≡ inl verify_memory) × (attempt.chunk_heap ≡ false))
    ⊎ ((readback_sha256 libraries attempt 32 ≡ inl readback_failed) × FailsWithin attempt.read 32)
readback_sha256_lem_example = readback_sha256_lem libraries streaming flash attempt 32 holds

run-IsOrderly_example :
    let r = run_inner libraries config true attempt in
    IsOrderly r.0 r.1
    × ((run libraries config attempt updater).1 ≡ r.0 ++ done r.1 ∷ [])
    × ((run libraries config attempt updater).0.running ≡ false)
run-IsOrderly_example = run-IsOrderly libraries config attempt updater

download_lem_example :
    (ps : List ℕ) × (download true 32 0 (0 ∷ 10 ∷ 11 ∷ 32 ∷ []) ≡ map progress ps)
    × Rises 0 ps
    × (length ps ≤ 10)
    × (reached 0 ps ≡ percent 32 32 / 10)
download_lem_example =
    let growing : Grows 32 0 (0 ∷ 10 ∷ 11 ∷ 32 ∷ []) = (
      omega arith,
      omega arith,
      (omega arith, omega arith, (omega arith, omega arith, (omega arith, omega arith, tt))),
    ) in
    download_lem 32 (0 ∷ 10 ∷ 11 ∷ 32 ∷ []) (omega arith) growing

abbrev once : OtaUpdater × EspErr
once = begin (record { has_done = false; has_progress = false; running = false }) true true true

abbrev twice : OtaUpdater × EspErr
twice = begin once.0 true true true

running_twice : twice.0.running ≡ true
unfolding begin
running_twice = refl

reaches_balance_example :
    0 + accepted once.1 + accepted twice.1
    ≡ 0
      + outcomes (run libraries config attempt twice.0).1
      + (if (run libraries config attempt twice.0).0.running then 1 else 0)
reaches_balance_example =
    reaches_balance (ends attempt running_twice (begins true true (begins true true fresh)))
