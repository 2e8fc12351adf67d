-- ===== src/Session/Compare.antt =====
-- pkg/session/common.go: comparing a file with bytes, by segments. Reading a file gives as much of it
-- as the buffer takes, and the end of the file where nothing is left.
pub mod Accepted
use bifroest.Prelude.{
  ℕ, zero, suc, ◌*◌, Bool, true, false, ◌&&◌, List, [], ◌∷◌, Bytes, bytes_eq, is_empty, length,
  ◌==◌, if◌then◌else◌,
}
use bifroest.Prelude.Segments.{take, skip}

abbrev pub buf_l : ℕ
buf_l = 4 * 1024

-- The loop, with a bound of its rounds.
unfoldable pub compare : ℕ → ℕ → Bytes → Bytes → Bool
compare n zero left right = is_empty right
compare n (suc rounds) left right =
    let rest = compare n rounds (skip n left) (skip n right) in
    let segment = take n right in
    let got = take n left in
    if is_empty right
    then true
    else if is_empty left
    then false
    else if length got == length segment && bytes_eq got segment
    then rest
    else false

-- `isReaderEqualToBytes`
unfoldable pub is_reader_equal_to_bytes : Bytes → Bytes → Bool
unfolding compare
is_reader_equal_to_bytes left right = compare buf_l (length right) left right
