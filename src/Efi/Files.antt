-- ===== src/Efi/Files.antt =====
-- open_root and read_file of boot/efi/loader.c. What the firmware answers to the calls is a
-- parameter; the resources that a call holds are part of the state, and to give one back that is not
-- held is a fault.
use mantle_os.Base.{ℕ, Bool, true, false, not, ◌||◌, ◌≡◌, Option, none, some, ◌==◌, if◌then◌else◌}
use mantle_os.Memory.{Run, done, fault, ◌>>=◌, Region}

-- The status codes of the firmware's interface, and the test EFI_ERROR on them.
pub record StatusCodes : Type 0 where
  pub is_error : ℕ → Bool
  pub efi_success : ℕ
  pub efi_load_error : ℕ
  pub efi_buffer_too_small : ℕ
  pub efi_out_of_resources : ℕ
  pub success_lem : is_error efi_success ≡ false
  pub load_error_lem : is_error efi_load_error ≡ true
  pub too_small_lem : is_error efi_buffer_too_small ≡ true
  pub out_of_resources_lem : is_error efi_out_of_resources ≡ true

-- The answers to the calls of open_root.
pub record RootAnswers : Type 0 where
  pub loaded : ℕ
  pub filesystem : ℕ
  pub volume : ℕ

unfoldable pub open_root : StatusCodes → RootAnswers → ℕ
open_root u a =
    if u.is_error a.loaded
    then a.loaded
    else if u.is_error a.filesystem
    then a.filesystem
    else a.volume

-- The answers to the calls of read_file, in their order; the contents of the buffer after the
-- read, and its address.
pub record FileAnswers : Type 0 where
  pub open_status : ℕ
  pub size_status : ℕ
  pub info_pool : ℕ
  pub info_status : ℕ
  pub file_size : ℕ
  pub buffer_pool : ℕ
  pub read_status : ℕ
  pub read_size : ℕ
  pub address : ℕ
  pub contents : ℕ → ℕ

pub record Resources : Type 0 where
  pub file_open : Bool
  pub info_held : Bool
  pub buffer_held : Bool

abbrev pub nothing_held : Resources
nothing_held = record { file_open = false; info_held = false; buffer_held = false }

-- The status, the buffer (`none` is the null pointer), and what is still held.
pub record ReadEnd : Type 0 where
  pub status : ℕ
  pub buffer : Option Region
  pub held : Resources

abbrev close_file : Resources → Run Resources
close_file r = if r.file_open then done (record r { file_open = false }) else fault

abbrev free_info : Resources → Run Resources
free_info r = if r.info_held then done (record r { info_held = false }) else fault

abbrev free_buffer : Resources → Run Resources
free_buffer r = if r.buffer_held then done (record r { buffer_held = false }) else fault

-- The file is closed, and then the function returns.
abbrev close_and_return : ℕ → Resources → Run ReadEnd
close_and_return status r = do
  r' ← close_file r
  done (record { status = status; buffer = none; held = r' })

abbrev free_and_return : ℕ → Resources → Run ReadEnd
free_and_return status r = free_info r >>= close_and_return status

-- From the read on.
unfoldable pub finish_read : StatusCodes → FileAnswers → Resources → Run ReadEnd
finish_read u a r = do
  freed ← free_info r
  closed ← close_file freed
  if u.is_error a.read_status || not (a.read_size == a.file_size)
      then (free_buffer closed >>= λ r'.
          done (record { status = u.efi_load_error; buffer = none; held = r' }))
      else done (record {
        status = u.efi_success;
        buffer = some (record { byte = a.contents; size = a.file_size });
        held = closed;
      })

unfoldable pub read_file : StatusCodes → FileAnswers → Resources → Run ReadEnd
unfolding finish_read
read_file u a r =
    let opened : Resources = record r { file_open = true } in
    let informed : Resources = record opened { info_held = true } in
    if u.is_error a.open_status
    then done (record { status = a.open_status; buffer = none; held = r })
    else if not (a.size_status == u.efi_buffer_too_small)
    then close_and_return a.size_status opened
    else if u.is_error a.info_pool
    then close_and_return a.info_pool opened
    else if u.is_error a.info_status
    then free_and_return a.info_status informed
    else if u.is_error a.buffer_pool
    then free_and_return a.buffer_pool informed
    else finish_read u a (record informed { buffer_held = true })
