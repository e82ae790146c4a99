-- ===== src/ShellState.antt =====
-- ui/shell/mantle-shell-state.c and mantle-shell-state.h: the state of the desktop shell. A string is
-- the list of its bytes before the zero.
pub mod Notifications
use mantle_os.Base.Int.{ℤ, pos, negsuc}
use mantle_os.Base.{
  ℕ, zero, suc, ◌+◌, ◌-◌, ◌%◌, Bool, true, false, not, ◌||◌, Option, none, some, List, [], ◌∷◌,
  ◌++◌, ltb, leb, ◌==◌, if◌then◌else◌, length, u32_mod, add32,
}

abbrev pub max_notifications : ℕ
max_notifications = 32

-- struct mantle_shell_notification
pub record Notification : Type 0 where
  pub id : ℕ
  pub title : List ℕ
  pub body : List ℕ
  pub unread : Bool

-- struct mantle_shell_state: `notifications` are the first notification_count of the array.
pub record ShellState : Type 0 where
  pub workspace_count : ℕ
  pub current_workspace : ℕ
  pub network_online : Bool
  pub audio_muted : Bool
  pub battery_percent : ℤ
  pub focused_window : ℕ
  pub next_notification_id : ℕ
  pub notifications : List Notification

abbrev pub shell_state_init : ShellState
shell_state_init = record {
  workspace_count = 4;
  current_workspace = 1;
  network_online = false;
  audio_muted = false;
  battery_percent = negsuc 0;
  focused_window = 0;
  next_notification_id = 1;
  notifications = [];
}

-- `false` is -1.
unfoldable pub set_workspace : ShellState → ℕ → ShellState × Bool
set_workspace state workspace =
    if (workspace == 0) || ltb state.workspace_count workspace
    then (state, false)
    else (record state { current_workspace = workspace }, true)

-- `n != 0`
abbrev pub is_nonzero : ℤ → Bool
is_nonzero (pos zero) = false
is_nonzero (pos (suc n)) = true
is_nonzero (negsuc n) = true

abbrev pub set_network : ShellState → ℤ → ShellState
set_network state online = record state { network_online = is_nonzero online }

abbrev pub set_audio_muted : ShellState → ℤ → ShellState
set_audio_muted state muted = record state { audio_muted = is_nonzero muted }

unfoldable pub clamped : ℤ → ℤ
clamped (negsuc n) = negsuc 0
clamped (pos n) = if ltb 100 n then pos 100 else pos n

abbrev pub set_battery : ShellState → ℤ → ShellState
set_battery state percent = record state { battery_percent = clamped percent }

-- What snprintf keeps of a string in a buffer of `size` bytes.
abbrev pub cut : ℕ → List ℕ → List ℕ
cut zero text = []
cut (suc size) [] = []
cut (suc size) (c ∷ text) = c ∷ cut size text

-- memmove of the notifications behind the first to the front.
abbrev pub without_first : List Notification → List Notification
without_first [] = []
without_first (n ∷ ns) = ns

abbrev pub or_else : Option (List ℕ) → List ℕ → List ℕ
or_else none other = other
or_else (some text) other = text

-- "MantleOS"
abbrev pub default_title : List ℕ
default_title = b'M' ∷ b'a' ∷ b'n' ∷ b't' ∷ b'l' ∷ b'e' ∷ b'O' ∷ b'S' ∷ []

unfoldable pub notify : ShellState → Option (List ℕ) → Option (List ℕ) → ShellState × ℕ
notify state title body =
    let kept =
      if length state.notifications == max_notifications
      then without_first state.notifications
      else state.notifications in
    let new : Notification = record {
      id = state.next_notification_id;
      title = cut 95 (or_else title default_title);
      body = cut 255 (or_else body []);
      unread = true;
    } in
    (
      record state {
        notifications = kept ++ new ∷ [];
        next_notification_id = add32 state.next_notification_id 1;
      },
      state.next_notification_id,
    )

-- The loop of dismiss; `none` is -1.
unfoldable pub remove_id : ℕ → List Notification → Option (List Notification)
remove_id id [] = none
remove_id id (n ∷ ns) =
    let rest = remove_id id ns in
    if n.id == id then some ns else elim rest [ none ↦ none | some ns' ↦ some (n ∷ ns') ]

unfoldable pub dismiss : ShellState → ℕ → ShellState × Bool
dismiss state id = elim (remove_id id state.notifications) [
  | none ↦ (state, false)
  | some ns ↦ (record state { notifications = ns }, true)
]
