-- ===== src/Builtin/Broadcast/History.antt =====
-- The goroutine of src/builtin/uptime.go or http_checker.go in updateStatus, with Status and the observers' receives
-- from StatusChange between its sections.
use mathlib.Core.Path.{subst, sym}
use go_healthcheck.Prelude.{
  ◌≤◌, ◌≡◌, refl, ◌⊎◌, inl, inr, List, [], ◌∷◌, ◌++◌, some, Option-cases, arith, length,
}
use go_healthcheck.Channel.{Chan, drain, drop_first, length-drop_first}
use go_healthcheck.Core.Types.{ComponentStatus}
use go_healthcheck.Builtin.Broadcast.{
  Phase, waiting, stored, drained, Fields, Broadcaster, store, store_at, advance, advance_at,
}

-- What the channel can hold where the goroutine stands, if `last` has been stored last.
abbrev Holds : Phase → List ComponentStatus → ComponentStatus → Type 0
Holds waiting buffer last = (buffer ≡ []) ⊎ (buffer ≡ last ∷ [])
Holds (stored s) buffer last = (s ≡ last) × (length buffer ≤ 1)
Holds (drained s) buffer last = (s ≡ last) × (buffer ≡ [])

module _ {S : Type 0} (f : Fields S) where
  abbrev pub buffer : Broadcaster S → List ComponentStatus
  buffer b = (f.channel b.component).buffer

  -- An observer receives what the channel holds.
  unfoldable pub take_first : Broadcaster S → Broadcaster S
  unfolding drain
  take_first b = record b {
    component = f.put (f.status b.component) (drain (f.channel b.component)) b.component;
  }

  -- What can have happened since the goroutine was outside updateStatus in the state `c`: it has stored
  -- statuses, it has gone on, and observers have received.
  pub data Runs (c : S) : Broadcaster S → Type 0 where
    here : Runs c (record { component = c; phase = waiting })
    stores :
        {b d : Broadcaster S} → Runs c b → (s : ComponentStatus) → store f s b ≡ some d → Runs c d
    goes : {b d : Broadcaster S} → Runs c b → advance f b ≡ some d → Runs c d
    receives : {b : Broadcaster S} → Runs c b → Runs c (take_first b)

  -- The status of the last update, or the one at the start.
  abbrev pub last_stored : {c : S} {b : Broadcaster S} → Runs c b → ComponentStatus
  last_stored {c} here = f.status c
  last_stored (stores r s h) = s
  last_stored (goes r h) = last_stored r
  last_stored (receives r) = last_stored r

  record Latest (b : Broadcaster S) (last : ComponentStatus) : Type 0 where
    capacity : (f.channel b.component).capacity ≡ 1
    shows : f.status b.component ≡ last
    holds : Holds b.phase (buffer b) last

  put-Latest :
      (s : ComponentStatus) (ch : Chan ComponentStatus) (x : S) (l : Phase) {last : ComponentStatus}
      → ch.capacity ≡ 1
      → s ≡ last
      → Holds l ch.buffer last
      → Latest (record { component = f.put s ch x; phase = l }) last
  put-Latest s ch x l {last} e shows holds = record {
    capacity = rw (f.channel-put s ch x) e;
    shows = rw (f.status-put s ch x) shows;
    holds = subst (λ k. Holds l k.buffer last) (sym (f.channel-put s ch x)) holds;
  }

  at_most_one :
      (l : Phase) (xs : List ComponentStatus) (last : ComponentStatus)
      → Holds l xs last
      → length xs ≤ 1
  at_most_one waiting xs last (inl e) = ground (arith, e)
  at_most_one waiting xs last (inr e) = ground (arith, e)
  at_most_one (stored s) xs last (same, short) = short
  at_most_one (drained s) xs last (same, e) = ground (arith, e)

  short-empty : (xs : List ComponentStatus) → length xs ≤ 1 → drop_first xs ≡ []
  short-empty [] h = refl
  short-empty (x ∷ []) h = refl
  short-empty (x ∷ y ∷ xs) h = absurd (omega arith)

  store_at-Latest :
      (l : Phase) (s : ComponentStatus) (x : S) {d : Broadcaster S} {last : ComponentStatus}
      → store_at f l s x ≡ some d
      → Latest (record { component = x; phase = l }) last
      → Latest d s
  unfolding store_at
  store_at-Latest waiting s x {d} {last} h v =
      let e : record { component = f.put s (f.channel x) x; phase = stored s } ≡ d = cc in
      subst (λ b. Latest b s) e
        (put-Latest s (f.channel x) x (stored s) v.capacity refl
          (refl, at_most_one waiting (f.channel x).buffer last v.holds))
  store_at-Latest (stored t) s x h v = absurd (cc)
  store_at-Latest (drained t) s x h v = absurd (cc)

  advance_at-Latest :
      (l : Phase) (x : S) {d : Broadcaster S} {last : ComponentStatus}
      → advance_at f l x ≡ some d
      → Latest (record { component = x; phase = l }) last
      → Latest d last
  unfolding advance_at drain
  advance_at-Latest waiting x h v = absurd (cc)
  advance_at-Latest (stored s) x {d} {last} h v =
      let ch = f.channel x in
      let e : record { component = f.put (f.status x) (drain ch) x; phase = drained s } ≡ d = cc in
      subst (λ b. Latest b last) e
        (put-Latest (f.status x) (drain ch) x (drained s) v.capacity v.shows
          (v.holds.0, short-empty ch.buffer v.holds.1))
  advance_at-Latest (drained s) x {d} {last} h v =
      let ch = f.channel x in
      let sent : Chan ComponentStatus = record ch { buffer = ch.buffer ++ s ∷ [] } in
      let e : record { component = f.put (f.status x) sent x; phase = waiting } ≡ d =
        ground (arith, v.capacity, v.holds) in
      subst (λ b. Latest b last) e
        (put-Latest (f.status x) sent x waiting v.capacity v.shows (inr (ground (arith, v.holds))))

  take_first-Latest :
      (b : Broadcaster S) {last : ComponentStatus} → Latest b last → Latest (take_first b) last
  unfolding take_first drain
  take_first-Latest b {last} v =
      put-Latest (f.status b.component) (drain (f.channel b.component)) b.component b.phase
        v.capacity v.shows (dropped b.phase v.holds)
    where
      dropped : (l : Phase) → Holds l (buffer b) last → Holds l (drop_first (buffer b)) last
      dropped waiting h = inl (short-empty (buffer b) (at_most_one waiting (buffer b) last h))
      dropped (stored s) (same, short) = (same, omega (arith, short, length-drop_first (buffer b)))
      dropped (drained s) (same, e) =
          (same, short-empty (buffer b) (at_most_one (drained s) (buffer b) last (same, e)))

  runs-Latest :
      {c : S} {b : Broadcaster S}
      → (f.channel c).capacity ≡ 1
      → (f.channel c).buffer ≡ []
      → (r : Runs c b) → Latest b (last_stored r)
  unfolding store advance
  runs-Latest e empty here = record { capacity = e; shows = refl; holds = inl empty }
  runs-Latest e empty (stores {b} r s h) =
      store_at-Latest b.phase s b.component h (runs-Latest e empty r)
  runs-Latest e empty (goes {b} r h) =
      advance_at-Latest b.phase b.component h (runs-Latest e empty r)
  runs-Latest e empty (receives {b} r) = take_first-Latest b (runs-Latest e empty r)

  advance_at-runs :
      (l : Phase) (x : S) {last : ComponentStatus}
      → Latest (record { component = x; phase = l }) last
      → ((l ≡ waiting) × (((f.channel x).buffer ≡ []) ⊎ ((f.channel x).buffer ≡ last ∷ [])))
        ⊎ ((d : Broadcaster S) × (advance_at f l x ≡ some d))
  unfolding advance_at
  advance_at-runs waiting x v = inl (refl, v.holds)
  advance_at-runs (stored s) x v = inr (_, refl)
  advance_at-runs (drained s) x v = elim (Option-cases (advance_at f (drained s) x)) [
    | inl waits ↦ absurd (ground (arith, v.capacity, v.holds))
    | inr found ↦ inr found
  ]

  -- From an empty channel of capacity 1 on, by any interleaving of the sections of updateStatus, in one
  -- goroutine, with the receives of observers, while nobody calls Close: Status() returns the status that was stored last, and either the
  -- goroutine is outside updateStatus and the channel holds nothing or just that status, or the
  -- goroutine can go on, so that its send never waits for an observer.
  pub broadcasts_show_latest :
      {c : S} {b : Broadcaster S}
      → (f.channel c).capacity ≡ 1
      → (f.channel c).buffer ≡ []
      → (r : Runs c b)
      → (f.status b.component ≡ last_stored r)
        × (((b.phase ≡ waiting) × ((buffer b ≡ []) ⊎ (buffer b ≡ last_stored r ∷ [])))
            ⊎ ((d : Broadcaster S) × (advance f b ≡ some d)))
  unfolding advance
  broadcasts_show_latest {b = b} e empty r =
      let v = runs-Latest e empty r in (v.shows, advance_at-runs b.phase b.component v)
