-- ===== src/Solace/Resources.antt =====
-- The discipline of sessions, senders and receivers: each is closed once, the last opened first.
use go_healthcheck.Prelude.{
  ◌≡◌, Bool, true, false, ◌||◌, List, [], ◌∷◌, Option, none, some, if◌then◌else◌,
}
use go_healthcheck.Solace.{
  Resource, session, sender, receiver, Action, opens, sends, receives, closes,
}

abbrev pub same : Resource → Resource → Bool
same session session = true
same sender sender = true
same receiver receiver = true
same _ _ = false

abbrev pub holds : Resource → List Resource → Bool
holds r [] = false
holds r (x ∷ xs) = same r x || holds r xs

-- One action on the stack of what is held; `none` if it is against the rules: senders and receivers are
-- made of a session, sending takes a sender and receiving a receiver, and only the top may be closed.
abbrev pub allowed : Action → List Resource → Option (List Resource)
allowed (opens session) s = some (session ∷ s)
allowed (opens r) s = if holds session s then some (r ∷ s) else none
allowed sends s = if holds sender s then some s else none
allowed receives s = if holds receiver s then some s else none
allowed (closes r) [] = none
allowed (closes r) (x ∷ s) = if same r x then some s else none

-- What is held after some actions, the newest first.
abbrev pub held : List Action → Option (List Resource)
held [] = some []
held (x ∷ xs) = elim (held xs) [ none ↦ none | some s ↦ allowed x s ]

-- The rules were kept, and nothing is held.
abbrev pub IsReleased : List Action → Type 0
IsReleased xs = held xs ≡ some []
