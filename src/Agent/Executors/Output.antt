-- ===== src/Agent/Executors/Output.antt =====
-- The two `read` tasks of a run, the same in src/gptlink/agent/executors/linux.py and
-- windows_process.py. Each section between two awaits is an event; the lock is never held across an
-- await.
use gptlink.Agent.Executors.{RunResult}
use gptlink.Agent.Jobs.{OutputChunk}
use gptlink.Common.Types.{StreamKind, stderr, stdout}
use gptlink.Prelude.{
  Bool, List, Option, String, [], false, if◌then◌else◌, is_some, none, not, some, true, ℕ, ℤ, ◌&&◌,
  ◌++◌, ◌+◌, ◌||◌, ◌∷◌,
}

-- a reader waits for the stream, or for its callback, or has returned
pub data Stage : Type 0 where
  reading delivering returned : Stage

pub record Run : Type 0 where
  pub sequence : ℕ
  pub truncated : Bool
  pub on_out : Stage
  pub on_err : Stage
  pub code : Option ℤ
  pub delivered : List OutputChunk

pub data Event : Type 0 where
  received : StreamKind → List ℕ → ℕ → Event
  answered : StreamKind → Bool → Event
  exits : ℤ → Event

abbrev pub stage : StreamKind → Run → Stage
stage stdout r = r.on_out
stage stderr r = r.on_err

abbrev pub staged : StreamKind → Stage → Run → Run
staged stdout g r = record r { on_out = g }
staged stderr g r = record r { on_err = g }

abbrev pub started : Run
started = record {
  sequence = 0;
  truncated = false;
  on_out = reading;
  on_err = reading;
  code = none;
  delivered = [];
}

-- decode("utf-8", errors="replace"), and the length of a text in UTF-8
module _ (decode : List ℕ → String) (size_of : String → ℕ) where
  abbrev pub chunk_of : ℕ → StreamKind → List ℕ → ℕ → OutputChunk
  chunk_of n kind bytes now = record {
    sequence_number = n;
    stream = kind;
    timestamp = now;
    text = decode bytes;
    size = size_of (decode bytes);
  }

  -- the bytes that `stream.read` returned; the callback gets the chunk
  unfoldable pub on_read : StreamKind → List ℕ → ℕ → Run → Run
  on_read kind [] now r = staged kind returned r
  on_read kind (b ∷ bytes) now r = staged kind delivering (record r {
    sequence = r.sequence + 1;
    delivered = r.delivered ++ chunk_of r.sequence kind (b ∷ bytes) now ∷ [];
  })

  unfoldable pub step : Event → Run → Run
  unfolding on_read
  step (received kind bytes now) r = on_read kind bytes now r
  step (answered kind accepted) r =
      staged kind reading (record r { truncated = r.truncated || not accepted })
  step (exits n) r = record r { code = some n }

  unfoldable pub run : List Event → Run → Run
  run [] r = r
  run (e ∷ es) r = run es (step e r)

abbrev pub is_reading : Stage → Bool
is_reading reading = true
is_reading _ = false

abbrev pub is_delivering : Stage → Bool
is_delivering delivering = true
is_delivering _ = false

abbrev pub is_returned : Stage → Bool
is_returned returned = true
is_returned _ = false

-- what `gather` waits for: both readers and the process
unfoldable pub ending : Run → Option RunResult
ending r =
    if is_returned r.on_out && is_returned r.on_err && is_some r.code
    then some (r.code, r.truncated)
    else none
