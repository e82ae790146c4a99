-- ===== src/Tests/ShellState.antt =====
-- ui/shell/mantle-shell-state.c with the calls of its own test.
use mantle_os.Base.{◌<◌, ◌≤◌, ◌≡◌, refl, true, false, none, some, [], ◌∷◌, length, arith}
use mantle_os.Base.Int.{pos}
use mantle_os.ShellState.{shell_state_init, set_workspace, set_battery, clamped, notify, dismiss}
use mantle_os.ShellState.Notifications.{kept, dismiss-notify}

moves : (set_workspace shell_state_init 2).0.current_workspace ≡ 2
unfolding set_workspace
moves = refl

stays : (set_workspace shell_state_init 0).1 ≡ false
unfolding set_workspace
stays = refl

full : (set_battery shell_state_init (pos 101)).battery_percent ≡ pos 100
unfolding clamped
full = refl

dismiss-notify_example :
    let (new, id) = notify shell_state_init (some (b'R' ∷ [])) none in
    (0 < length new.notifications)
    × (length new.notifications ≤ 32)
    × (dismiss new id ≡ (record new { notifications = kept shell_state_init }, true))
dismiss-notify_example = dismiss-notify shell_state_init (some (b'R' ∷ [])) none (omega arith) tt
