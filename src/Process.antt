-- ===== src/Process.antt =====
-- kernel/process/process.c and process.h: the one process.
use mantle_os.Base.{ℕ, ◌==◌, if◌then◌else◌}

pub data ProcessState : Type 0 where
  ready running exited : ProcessState

-- `cwd` is the array of 64 bytes.
pub record Process : Type 0 where
  pub pid : ℕ
  pub ppid : ℕ
  pub uid : ℕ
  pub gid : ℕ
  pub state : ProcessState
  pub exit_code : ℕ
  pub cwd : ℕ → ℕ

-- `exit_code` is the bit pattern of an int32_t. The bytes of `cwd` behind the zero stay as they are.
unfoldable pub process_init : Process → Process
process_init current = record {
  pid = 1;
  ppid = 0;
  uid = 0;
  gid = 0;
  state = ready;
  exit_code = 0;
  cwd = λ i. if i == 0 then b'/' else if i == 1 then 0 else current.cwd i;
}
