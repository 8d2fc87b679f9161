-- ===== src/Demo/FileStream.antt =====
-- The stream of the demo device that sends a file (examples/webrtc-demo/nabto_device.cpp): the
-- listener, the callbacks of the Nabto SDK, and the jobs that these post to the event queue.
pub mod Closed
mod Invariant
pub mod Live
pub mod Sent
mod Tests
use edge_device_webrtc.Prelude.{
  ltb, length, ◌+◌, zero, leb, ◌∷◌, ◌&&◌, true, drop, ◌++◌, take, suc, some, not, is_none, false,
  [], none, if◌then◌else◌, Text, Option, Bool, List, ℕ,
}

-- What the future stands for, and what is posted when it is resolved.
pub data Operation : Type 0 where
  accepting writing closing : Operation

pub data Job : Type 0 where
  open_file stream_file give_up : Job

-- `std::ifstream`: what is left to read, and its state.
pub record Input : Type 0 where
  pub rest : Text
  pub good : Bool
  pub eof : Bool

-- Streams are numbered as the SDK opens them; `opened` is their number, `written` the data given to
-- the SDK with the stream that `fileStream_` is then, and `freed` the streams freed.
pub record FileApp : Type 0 where
  pub file_stream : Option ℕ
  pub me : Bool
  pub input : Input
  pub pending : Option Operation
  pub posted : Option Job
  pub opened : ℕ
  pub written : List (Option ℕ × Text)
  pub freed : List (Option ℕ)

abbrev pub new_app : FileApp
new_app = record {
  file_stream = none;
  me = false;
  input = record { rest = []; good = false; eof = false };
  pending = none;
  posted = none;
  opened = 0;
  written = [];
  freed = [];
}

-- The callback of the listener; `allowed` is the answer of the IAM module for "Webrtc:FileStream".
unfoldable pub on_stream : Bool → FileApp → FileApp
on_stream allowed s =
    if is_none s.file_stream && allowed
    then record s {
      file_stream = some s.opened;
      me = true;
      pending = some accepting;
      opened = s.opened + 1;
    }
    else record s { freed = s.freed ++ some s.opened ∷ []; opened = s.opened + 1 }

-- `closeFileStreamCb` without an error frees the stream and posts nothing.
unfoldable pub file_stream_closed : Bool → FileApp → FileApp
file_stream_closed ok s =
    if ok
    then record s { pending = none; freed = s.freed ++ s.file_stream ∷ [] }
    else record s { pending = none; posted = some give_up }

-- `fileStreamAccepted`, `writeFileStreamCb` and `closeFileStreamCb`: the callback of the future for
-- an operation.
unfoldable pub complete_operation : Option Operation → Bool → FileApp → FileApp
unfolding file_stream_closed
complete_operation none ok s = s
complete_operation (some accepting) ok s = record s {
  pending = none;
  posted = some (if ok then open_file else give_up);
}
complete_operation (some writing) ok s = record s {
  pending = none;
  posted = some (if ok then stream_file else give_up);
}
complete_operation (some closing) ok s = file_stream_closed ok s

unfoldable pub complete : Bool → FileApp → FileApp
unfolding complete_operation
complete ok s = complete_operation s.pending ok s

-- The size of `fileBuffer_`.
abbrev pub buffer_size : ℕ
buffer_size = 1024

-- `read` and `gcount`: what is read, and the file after it.
unfoldable pub read_file : Input → Text × Input
read_file f =
    if f.good
    then (
      take buffer_size f.rest,
      record {
        rest = drop buffer_size f.rest;
        good = leb buffer_size (length f.rest);
        eof = ltb (length f.rest) buffer_size;
      },
    )
    else ([], f)

unfoldable pub do_stream_file : FileApp → FileApp
unfolding read_file
do_stream_file s =
    if not s.input.eof
    then record s {
      input = (read_file s.input).1;
      written = s.written ++ (s.file_stream, (read_file s.input).0) ∷ [];
      pending = some writing;
    }
    else record s { pending = some closing }

module _ (file : Option Text) where
  -- `file` is what the file holds, if it exists.
  abbrev pub opened_input : Input
  opened_input = elim file [
    | none ↦ record { rest = []; good = false; eof = false }
    | some c ↦ record { rest = c; good = true; eof = false }
  ]

  -- A job, once the event queue runs it.
  unfoldable pub run_posted : Option Job → FileApp → FileApp
  unfolding do_stream_file
  run_posted none s = s
  run_posted (some open_file) s = do_stream_file (record s { posted = none; input = opened_input })
  run_posted (some stream_file) s = do_stream_file (record s { posted = none })
  run_posted (some give_up) s = record s { posted = none; file_stream = none; me = false }

  unfoldable pub run_job : FileApp → FileApp
  unfolding run_posted
  run_job s = run_posted s.posted s

  -- Jobs and callbacks by turns, as long as the SDK reports no error.
  unfoldable pub serve : ℕ → FileApp → FileApp
  unfolding run_job complete
  serve zero s = s
  serve (suc n) s = serve n (complete true (run_job s))
