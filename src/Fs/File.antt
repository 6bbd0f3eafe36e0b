-- ===== src/Fs/File.antt =====
-- The open files of pkg/fs/memory/fs.go.
pub mod ReadAll
use skylark.Base.{
  ℕ, Result, take, drop, length, if◌then◌else◌, ok, leb, ◌++◌, ltb, err, ◌+◌, ◌==◌, ◌-◌, ℕ_eq,
  List_eq,
}
use skylark.Base.Int.{ℤ, pos, negsuc, ◌+ℤ◌}
use skylark.Text.{Text}

-- The mode holds the nine bits of permission; the offset is never negative.
pub record File : Type 0 where
  pub name : Text
  pub data_ : Text
  pub mode : ℕ
  pub mod_time : ℕ
  pub offset : ℕ

pub data FileError : Type 0 where
  eof unexpected_eof invalid_whence negative_position : FileError

unfoldable pub clone : File → File
clone f = record f { offset = 0 }

-- Reads into a buffer of a size: the bytes read, of which there are as many as their list is long.
unfoldable pub read : ℕ → File → Result FileError Text × File
read size f =
    let bytes_read = take size (drop f.offset f.data_) in
    if leb (length f.data_) f.offset
    then (err eof, f)
    else (ok bytes_read, record f { offset = f.offset + length bytes_read })

-- copy(dst, src): what `dst` becomes
unfoldable copy_over : Text → Text → Text
copy_over dst src = take (length dst) src ++ drop (length src) dst

-- How many bytes were written. Inside the file it is no more than there were before.
unfoldable pub write : Text → File → Result FileError ℕ × File
unfolding copy_over
write b f =
    if ltb (length f.data_) f.offset
    then (err unexpected_eof, f)
    else if f.offset == length f.data_
    then (ok (length b), record f { data_ = f.data_ ++ b; offset = f.offset + length b })
    else (let n = length (take (length f.data_ - f.offset) b) in
        (
          ok n,
          record f {
            data_ = take f.offset f.data_ ++ copy_over (drop f.offset f.data_) b;
            offset = f.offset + n;
          },
        ))

pub data Whence : Type 0 where
  seek_start seek_current seek_end : Whence
  other : ℕ → Whence

unfoldable seek_to : ℤ → File → Result FileError ℕ × File
seek_to (pos n) f = (ok n, record f { offset = n })
seek_to (negsuc n) f = (err negative_position, f)

unfoldable seek : ℤ → Whence → File → Result FileError ℕ × File
unfolding seek_to ◌+ℤ◌
seek offset seek_start f = seek_to offset f
seek offset seek_current f = seek_to (pos f.offset +ℤ offset) f
seek offset seek_end f = seek_to (pos (length f.data_) +ℤ offset) f
seek offset (other whence) f = (err invalid_whence, f)
