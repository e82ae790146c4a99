-- ===== src/Efi/Released.antt =====
-- What read_file of boot/efi/loader.c holds when it returns.
use mantle_os.Base.{◌≡◌, ◌⊎◌, true, false, none, some, arith}
use mantle_os.Memory.{Returns}
use mantle_os.Efi.Files.{StatusCodes, FileAnswers, ReadEnd, nothing_held, read_file}

-- Success: the whole file is in the buffer. Failure: there is no buffer, and none is held.
abbrev pub ReadOutcome : StatusCodes → FileAnswers → ReadEnd → Type 0
ReadOutcome u a r =
    (r.held.file_open ≡ false)
    × (r.held.info_held ≡ false)
    × (((r.status ≡ u.efi_success)
          × (r.buffer ≡ some (record { byte = a.contents; size = a.file_size }))
          × (a.read_size ≡ a.file_size)
          × (r.held.buffer_held ≡ true))
        ⊎ ((u.is_error r.status ≡ true) × (r.buffer ≡ none) × (r.held.buffer_held ≡ false)))

-- If the first request for the file's information, which has no buffer, is answered by an error:
-- On every path, read_file closes the file if it has opened it and frees the information if it has
-- allocated it, and never what it does not hold. It reports success exactly if it hands out a buffer, which then holds all of
-- the file; with an error it holds nothing.
pub read_file-ReadOutcome :
    (u : StatusCodes) (a : FileAnswers)
    → u.is_error a.size_status ≡ true
    → Returns (read_file u a nothing_held) (ReadOutcome u a)
unfolding read_file
read_file-ReadOutcome u a too_small = ground (arith, u.load_error_lem, u.success_lem)
