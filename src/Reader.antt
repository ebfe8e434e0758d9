-- ===== src/Reader.antt =====
-- internal/server/request.go: `readLine` and `discardLine`, on a buffered reader.
-- A reader is the bytes that will still arrive and how they end. A read deadline that passes, and any
-- other failure of the connection, shows as an ending. `max` is a 64-bit int, and `max+2` wraps around.
pub mod Index
use fingered.Base.{
  ℕ, ◌+◌, ◌≤◌, Bool, true, false, List, [], ◌∷◌, ◌++◌, Option, none, some, ◌==◌, if◌then◌else◌,
  Bytes, length,
}
use fingered.Base.Int.{ℤ, pos, leb_ℤ, add64}

-- What the read of a byte returns when there is none: `io.EOF`, a `net.Error` that is a timeout, or
-- another error.
pub data Ending : Type 0 where
  end_of_file timed_out failed : Ending

pub record Reader : Type 0 where
  pub input : Bytes
  pub ending : Ending

pub data ReadError : Type 0 where
  read_ended : Ending → ReadError
  line_too_long : ReadError

-- The results of `readLine`, with the reader after the call.
pub record LineRead : Type 0 where
  pub line : Bytes
  pub complete : Bool
  pub error : Option ReadError
  pub reader : Reader

unfoldable pub line_ended : Bytes → Ending → LineRead
line_ended b end_of_file = record {
  line = b;
  complete = false;
  error = some (read_ended end_of_file);
  reader = record { input = []; ending = end_of_file };
}
line_ended b e = record {
  line = [];
  complete = false;
  error = some (read_ended e);
  reader = record { input = []; ending = e };
}

abbrev pub too_long : Bytes → Ending → LineRead
too_long rest e = record {
  line = [];
  complete = true;
  error = some line_too_long;
  reader = record { input = rest; ending = e };
}

abbrev pub line_read : Bytes → Bytes → Ending → LineRead
line_read line rest e = record {
  line = line;
  complete = true;
  error = none;
  reader = record { input = rest; ending = e };
}

-- The loop, with `max+2`, the bytes read so far and the bytes to come
pub read_line_from : ℤ → Ending → Bytes → Bytes → LineRead
read_line_from limit e b [] = line_ended b e
read_line_from limit e b (ch ∷ rest) =
    if leb_ℤ limit (pos (length b))
    then too_long rest e
    else if ch == b'\n'
    then line_read (b ++ ch ∷ []) rest e
    else read_line_from limit e (b ++ ch ∷ []) rest

unfoldable pub read_line : Reader → ℤ → LineRead
unfolding read_line_from line_ended
read_line r max = read_line_from (add64 max 2) r.ending [] r.input

pub record Discarded : Type 0 where
  pub complete : Bool
  pub error : Option ReadError
  pub reader : Reader

unfoldable pub discard_line_from : Ending → Bytes → Discarded
discard_line_from e [] = record {
  complete = false;
  error = some (read_ended e);
  reader = record { input = []; ending = e };
}
discard_line_from e (ch ∷ rest) =
    if ch == b'\n'
    then record { complete = true; error = none; reader = record { input = rest; ending = e } }
    else discard_line_from e rest

unfoldable pub discard_line : Reader → Discarded
unfolding discard_line_from
discard_line r = discard_line_from r.ending r.input
