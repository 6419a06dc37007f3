-- ===== src/Platform/Tests.antt =====
-- The recording transport at a transport that echoes the last write.
use reink_rust.Base.{List, Result, [], err, ok, true, ◌++◌, ◌∷◌, ◌≡◌, ℕ}
use reink_rust.Platform.Transport.{ByteTransport, TransportError, timeout}
use reink_rust.Platform.Recording.{RecordingTransport, recording}
use reink_rust.Platform.Transparent.{Use, writes, reads, use_all, transfers, use_all-recording}

-- A write is kept for the next read; a read with nothing to give times out.
abbrev echo_read : List ℕ → ℕ → Result TransportError (List ℕ) × List ℕ
echo_read [] capacity =
    (err (record { kind = timeout; operation = "read"; message = "nothing" }), [])
echo_read (b ∷ bs) capacity = (ok (b ∷ bs), [])

abbrev echo : ByteTransport
echo = record { Target = List ℕ; write_all = λ held bytes. (ok tt, bytes); read = echo_read }

abbrev fresh : RecordingTransport echo
fresh = record { inner = []; events = []; recording_enabled = true }

abbrev exchange : List Use
exchange = writes (1 ∷ 2 ∷ []) ∷ reads 16 ∷ reads 16 ∷ []

use_all-recording_example :
    ((use_all (recording echo) exchange fresh).0 ≡ (use_all echo exchange []).0)
    × ((use_all (recording echo) exchange fresh).1 ≡ record {
      inner = (use_all echo exchange []).1;
      events = [] ++ transfers (use_all echo exchange []).0;
      recording_enabled = true;
    })
use_all-recording_example = use_all-recording echo exchange fresh
