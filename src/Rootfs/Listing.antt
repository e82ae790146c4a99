-- ===== src/Rootfs/Listing.antt =====
-- mantle_rootfs_list of kernel/fs/rootfs.c: the distinct first components of the paths, each
-- followed by a space, the last by a newline. `output` is the memory behind the caller's pointer.
-- That memory is there, so the test for a null `output` has no counterpart.
-- A loop that reads until a separator has fuel, and faults if that runs out.
use mantle_os.Base.{
  ℕ, zero, suc, ◌+◌, ◌-◌, Bool, true, false, not, ◌||◌, Option, none, some, List, [], ◌∷◌, leb,
  ◌==◌, if◌then◌else◌, add16, add32, sub32,
}
use mantle_os.Memory.{Run, done, fault, ◌>>=◌, Region, read8, write8}
use mantle_os.Rootfs.{RootfsState, Entry, read_entry, header_size, entry_size}

-- The inner loop that looks for the end of a word of the output.
unfoldable pub word_end : Region → ℕ → ℕ → ℕ → Run ℕ
word_end output length zero cursor = fault
word_end output length (suc fuel) cursor =
    let rest = word_end output length fuel (add32 cursor 1) in
    if leb length cursor
    then done cursor
    else (read8 output cursor >>= λ b. if (b == b' ') || (b == b'\n') then done cursor else rest)

-- The inner loop that compares a word with the name; the index where it stops.
unfoldable pub match_length : Region → ℕ → Region → ℕ → ℕ → ℕ → ℕ → Run ℕ
match_length output start image name name_length zero index = fault
match_length output start image name name_length (suc fuel) index =
    let rest = match_length output start image name name_length fuel (add16 index 1) in
    if leb name_length index then done index else do
      a ← read8 output (start + index)
      b ← read8 image (name + index)
      if a == b then rest else done index

-- The word between `start` and `stop` is the name.
unfoldable pub word_matches : Region → ℕ → ℕ → Region → ℕ → ℕ → Run Bool
word_matches output start stop image name name_length =
    if not (sub32 stop start == name_length)
    then done false
    else (match_length output start image name name_length (suc name_length) 0 >>= λ index.
        done (index == name_length))

unfoldable pub name_seen_from : Region → ℕ → Region → ℕ → ℕ → ℕ → ℕ → Run Bool
name_seen_from output length image name name_length zero cursor = fault
name_seen_from output length image name name_length (suc fuel) cursor =
    if leb length cursor then done false else do
      stop ← word_end output length (suc length) cursor
      found ← word_matches output cursor stop image name name_length
      elim found [
        | true ↦ done true
        | false ↦ name_seen_from output length image name name_length fuel (add32 stop 1)
      ]

unfoldable pub name_seen : Region → ℕ → Region → ℕ → ℕ → Run Bool
name_seen output length image name name_length =
    name_seen_from output length image name name_length (suc length) 0

-- The length of the path's first component, whose first byte is at `name`.
unfoldable pub component_length : Region → ℕ → ℕ → ℕ → ℕ → Run ℕ
component_length image name path_length zero name_length = fault
component_length image name path_length (suc fuel) name_length =
    let rest = component_length image name path_length fuel (add16 name_length 1) in
    if leb path_length (name_length + 1)
    then done name_length
    else (read8 image (name + name_length) >>= λ b.
        if (b == b'/') || (b == 0) then done name_length else rest)

-- `left` more bytes of the name, to `written` on.
unfoldable pub copy_name : ℕ → Region → ℕ → Region → ℕ → Run Region
copy_name zero image name output written = done output
copy_name (suc left) image name output written = do
  b ← read8 image name
  output' ← write8 output written b
  copy_name left image (name + 1) output' (written + 1)

-- The output and, unless the code returns -1, the number of bytes written so far.
pub record Listing : Type 0 where
  pub output : Region
  pub written : Option ℕ

-- One name that is not listed yet.
unfoldable pub append_name : Region → ℕ → ℕ → Region → ℕ → ℕ → Run Listing
append_name image name name_length output written output_size =
    if leb output_size (add32 (add32 written name_length) 1)
    then done (record { output = output; written = none })
    else do
      copied ← copy_name name_length image name output written
      spaced ← write8 copied (written + name_length) b' '
      done (record { output = spaced; written = some (add32 (add32 written name_length) 1) })

-- The body of the loop: one entry, whose path starts at `path`.
unfoldable pub list_entry : Region → Entry → ℕ → Region → ℕ → ℕ → Run Listing
list_entry image entry path output written output_size =
    if leb entry.path_length 1
    then done (record { output = output; written = some written })
    else do
      name_length ← component_length image (path + 1) entry.path_length (suc entry.path_length) 0
      seen ← name_seen output written image (path + 1) name_length
      if seen
          then done (record { output = output; written = some written })
          else append_name image (path + 1) name_length output written output_size

-- The loop goes on while nothing returns -1.
abbrev pub go_on : Listing → (Region → ℕ → Run Listing) → Run Listing
go_on l k = elim l.written [ none ↦ done l | some written ↦ k l.output written ]

unfoldable pub list_entries : Region → ℕ → ℕ → Region → ℕ → ℕ → Run Listing
list_entries image zero cursor output written output_size =
    done (record { output = output; written = some written })
list_entries image (suc left) cursor output written output_size = do
  entry ← read_entry image cursor
  let path = add32 cursor entry_size
  l ← list_entry image entry path output written output_size
  go_on l (λ output' written'.
      list_entries image left (add32 path entry.path_length) output' written' output_size)

-- The last space becomes a newline, and a zero ends the text.
unfoldable pub end_list : ℕ → Region → ℕ → Run Listing
end_list output_size output written =
    if (written == 0) || leb output_size (add32 written 1)
    then done (record { output = output; written = none })
    else do
      lined ← write8 output (written - 1) b'\n'
      ended ← write8 lined written 0
      done (record { output = ended; written = some written })

abbrev pub is_root : List ℕ → Bool
is_root [] = false
is_root (c ∷ []) = c == b'/'
is_root (c ∷ d ∷ rest) = false

-- `written` of the result is what the code returns, `none` for -1.
unfoldable pub rootfs_list : RootfsState → Option (List ℕ) → Region → ℕ → Run Listing
rootfs_list state none output output_size = done (record { output = output; written = none })
rootfs_list state (some path) output output_size = elim state.image [
  | none ↦ done (record { output = output; written = none })
  | some image ↦
      if (output_size == 0) || not (is_root path)
      then done (record { output = output; written = none })
      else (list_entries image state.entries header_size output 0 output_size >>= λ l.
          go_on l (end_list output_size))
]
