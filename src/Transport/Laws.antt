-- ===== src/Transport/Laws.antt =====
-- What the stream runtime relies on of a transport.
use universal_protocol_runti.Base.{ℕ, ◌≤◌, ◌<◌, ◌≡◌, true, false, List, [], ◌++◌, length}
use universal_protocol_runti.Status.{is_ok}
use universal_protocol_runti.Transport.{Transport, ReadResult}

-- One read: it reports the bytes that it wrote, and no more than the destination holds; what is left
-- of the stream is what was left before without these bytes. A read that fails takes nothing.
pub record IsRead {State : Type 0} (remaining : State → List ℕ) (before : State) (n : ℕ)
    (r : ReadResult) (bytes : List ℕ) (after : State) : Type 0 where
  pub counted : r.bytes_read ≡ length bytes
  pub fits : length bytes ≤ n
  pub taken : remaining before ≡ bytes ++ remaining after
  pub failed : is_ok r.status.code ≡ false → bytes ≡ []
  pub ended : r.end_of_stream ≡ true → remaining after ≡ []

-- A transport over a stream of bytes. `remaining` is the part of the stream that is not read yet.
pub record IsStream (t : Transport) (remaining : t.State → List ℕ) : Type 0 where
  pub read_lem :
      (st : t.State) (n : ℕ) → IsRead remaining st n (t.read st n).0 (t.read st n).1 (t.read st n).2

-- A transport that never fails or asks to wait, and reads something until the stream ends.
pub record IsReliable (t : Transport) (remaining : t.State → List ℕ) : Type 0 where
  pub stream : IsStream t remaining
  pub succeeds : (st : t.State) (n : ℕ) → is_ok (t.read st n).0.status.code ≡ true
  pub serves : (st : t.State) (n : ℕ) → (t.read st n).0.would_block ≡ false
  pub advances :
      (st : t.State) (n : ℕ)
      → 0 < n
      → (t.read st n).0.end_of_stream ≡ false
      → 0 < (t.read st n).0.bytes_read
