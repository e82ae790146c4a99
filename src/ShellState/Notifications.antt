-- ===== src/ShellState/Notifications.antt =====
-- The queue of notifications of ui/shell/mantle-shell-state.c.
use mantle_os.Base.{
  ℕ, suc, ◌≤◌, ◌<◌, ◌≡◌, ◌≢◌, refl, inl, inr, true, false, Option, some, List, [], ◌∷◌, ◌++◌, ◌==◌,
  if◌then◌else◌, length, length-append, arith, Bool-cases,
}
use mantle_os.ShellState.{
  Notification, ShellState, without_first, notify, remove_id, dismiss, cut, or_else, default_title,
}

abbrev pub AllOther : ℕ → List Notification → Type 0
AllOther id [] = Unit {0}
AllOther id (n ∷ ns) = (n.id ≢ id) × AllOther id ns

remove_id-last :
    (id : ℕ) (ns : List Notification) (n : Notification)
    → AllOther id ns
    → n.id ≡ id
    → remove_id id (ns ++ n ∷ []) ≡ some ns
unfolding remove_id
remove_id-last id [] n other e = let test : (n.id == id) ≡ true = ground (arith, e) in rw test refl
remove_id-last id (m ∷ ns) n (apart, other) e =
    let test : (m.id == id) ≡ false = ground arith in rw (test, remove_id-last id ns n other e) refl

AllOther-without_first :
    (id : ℕ) (ns : List Notification) → AllOther id ns → AllOther id (without_first ns)
AllOther-without_first id [] other = tt
AllOther-without_first id (n ∷ ns) other = other.1

abbrev newest : ShellState → Option (List ℕ) → Option (List ℕ) → Notification
newest state title body = record {
  id = state.next_notification_id;
  title = cut 95 (or_else title default_title);
  body = cut 255 (or_else body []);
  unread = true;
}

-- What a notification leaves in the queue of the ones before.
abbrev pub kept : ShellState → List Notification
kept state =
    if length state.notifications == 32
    then without_first state.notifications
    else state.notifications

length-without_first :
    (ns : List Notification) → 0 < length ns → suc (length (without_first ns)) ≡ length ns
length-without_first [] some_length = absurd (omega arith)
length-without_first (n ∷ ns) some_length = refl

appended :
    (ns : List Notification) (n : Notification)
    → length ns < 32
    → AllOther n.id ns
    → (0 < length (ns ++ n ∷ []))
      × (length (ns ++ n ∷ []) ≤ 32)
      × (remove_id n.id (ns ++ n ∷ []) ≡ some ns)
appended ns n few other = (
  omega (arith, length-append ns (n ∷ [])),
  omega (arith, length-append ns (n ∷ [])),
  remove_id-last n.id ns n other refl,
)

dismissed :
    (state : ShellState) (id : ℕ) (ns : List Notification)
    → remove_id id state.notifications ≡ some ns
    → dismiss state id ≡ (record state { notifications = ns }, true)
unfolding dismiss
dismissed state id ns e = rw (dismiss, e) refl

-- A queue of at most 32 notifications has again at most 32 after a new one, and at least one. If no
-- notification in it has the identifier of the new one, the dismissal of the new one succeeds and
-- leaves the ones before, without the oldest if there were 32.
pub dismiss-notify :
    (state : ShellState) (title body : Option (List ℕ))
    → length state.notifications ≤ 32
    → AllOther state.next_notification_id state.notifications
    → (let (new, id) = notify state title body in
        (0 < length new.notifications)
        × (length new.notifications ≤ 32)
        × (dismiss new id ≡ (record new { notifications = kept state }, true)))
unfolding notify
dismiss-notify state title body few other = elim (Bool-cases (length state.notifications == 32)) [
  | inl full ↦ rw full (
      let facts =
        appended (without_first state.notifications) (newest state title body)
          (ground (arith, length-without_first state.notifications))
          (AllOther-without_first state.next_notification_id state.notifications other) in
      (facts.0, facts.1, dismissed _ _ _ facts.2))
  | inr room ↦ rw room (
      let facts = appended state.notifications (newest state title body) (ground arith) other in
      (facts.0, facts.1, dismissed _ _ _ facts.2))
]
