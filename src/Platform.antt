-- ===== src/Platform.antt =====
-- What the firmware relies on of ESP-IDF and FreeRTOS, whose code is not in the repository:
-- the software timers of esp_timer.h and the message queues of freertos/queue.h.
mod Instances
pub use Instances.{simple_timers, simple_queues}
pub mod Api
