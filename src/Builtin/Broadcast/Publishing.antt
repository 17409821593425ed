-- ===== src/Builtin/Broadcast/Publishing.antt =====
-- A component that broadcasts from one goroutine, as a service relies on it.
use mathlib.Core.Path.{subst}
use native.Mathlib.Decide.{dec_lt}
use go_healthcheck.Prelude.{
  ℕ, ◌-◌, ◌≤◌, ◌<◌, ◌≡◌, refl, sym, ap, ◌∙◌, Option-cases, length-append, inl, inr, [], ◌∷◌, ◌++◌,
  some, Bool, true, false, arith, length,
}
use go_healthcheck.Channel.{Chan, drain, drop_first, length-drop_first}
use go_healthcheck.Core.Types.{ComponentStatus}
use go_healthcheck.Core.Publisher.{View, Effect, unseen, changes, drains, sends, Publisher}
use go_healthcheck.Builtin.Broadcast.{
  Phase, waiting, stored, drained, Fields, Broadcaster, store, store_at, advance, advance_at,
}

abbrev pub is_unsent : Phase → Bool
is_unsent waiting = false
is_unsent _ = true

abbrev pub sections_left : Phase → ℕ
sections_left waiting = 0
sections_left (stored s) = 2
sections_left (drained s) = 1

-- How much the channel can hold there.
abbrev pub most : Phase → ℕ
most (drained s) = 0
most _ = 1

module _ {S : Type 0} (f : Fields S) where
  abbrev pub view : Broadcaster S → View
  view b = record {
    status = (f.status b.component).status;
    is_unsent = is_unsent b.phase;
    queued = length (f.channel b.component).buffer;
  }

  pub record Inv (b : Broadcaster S) : Type 0 where
    pub capacity : (f.channel b.component).capacity ≡ 1
    pub holds : length (f.channel b.component).buffer ≤ most b.phase

  abbrev pub receive : Broadcaster S → Broadcaster S
  receive b = record b {
    component = f.put (f.status b.component) (drain (f.channel b.component)) b.component;
  }

  abbrev pub Calls : Broadcaster S → Broadcaster S → Type 0
  Calls b c = (s : ComponentStatus) × (store f s b ≡ some c)

  abbrev pub Goes : Broadcaster S → Broadcaster S → Type 0
  Goes b c = advance f b ≡ some c

  -- What a section of the goroutine does.
  pub record Section (b c : Broadcaster S) : Type 0 where
    pub invariant : Inv c
    pub effect : Effect (view b) (view c)
    pub fewer : sections_left c.phase < sections_left b.phase

  pub record Stores (b c : Broadcaster S) : Type 0 where
    pub invariant : Inv c
    pub effect : Effect (view b) (view c)

  pub store_at-Stores :
      (l : Phase) (s : ComponentStatus) (x : S) {c : Broadcaster S}
      → store_at f l s x ≡ some c
      → Inv (record { component = x; phase = l })
      → Stores (record { component = x; phase = l }) c
  unfolding store_at
  store_at-Stores waiting s x {c} h v =
      let b : Broadcaster S = record { component = x; phase = waiting } in
      let d : Broadcaster S = record { component = f.put s (f.channel x) x; phase = stored s } in
      let e : d ≡ c = cc in
      subst (Stores b) e (record {
        invariant = record {
          capacity = rw (f.channel-put s (f.channel x) x) v.capacity;
          holds = rw (f.channel-put s (f.channel x) x) v.holds;
        };
        effect =
            subst (Effect (view b))
              (sym (rw (f.status-put s (f.channel x) x, f.channel-put s (f.channel x) x) refl))
              (changes s.status);
      })
  store_at-Stores (stored t) s x h v = absurd (cc)
  store_at-Stores (drained t) s x h v = absurd (cc)

  -- A component with new fields.
  put-view :
      (s : ComponentStatus) (ch : Chan ComponentStatus) (x : S) (l : Phase)
      → view (record { component = f.put s ch x; phase = l })
        ≡ record { status = s.status; is_unsent = is_unsent l; queued = length ch.buffer }
  put-view s ch x l = rw (f.status-put s ch x, f.channel-put s ch x) refl

  put-Inv :
      (s : ComponentStatus) (ch : Chan ComponentStatus) (x : S) (l : Phase)
      → ch.capacity ≡ 1
      → length ch.buffer ≤ most l
      → Inv (record { component = f.put s ch x; phase = l })
  put-Inv s ch x l e le = record {
    capacity = rw (f.channel-put s ch x) e;
    holds = rw (f.channel-put s ch x) le;
  }

  drain-Section :
      (s : ComponentStatus) (x : S)
      → Inv (record { component = x; phase = stored s })
      → Section
          (record { component = x; phase = stored s })
          (record { component = f.put (f.status x) (drain (f.channel x)) x; phase = drained s })
  unfolding drain
  drain-Section s x v =
      let b : Broadcaster S = record { component = x; phase = stored s } in
      let ch = f.channel x in
      let short : length (drop_first ch.buffer) ≤ 0 =
        omega (arith, length-drop_first ch.buffer, v.holds) in
      record {
        invariant = put-Inv (f.status x) (drain ch) x (drained s) v.capacity short;
        effect =
            subst (Effect (view b)) (sym (put-view (f.status x) (drain ch) x (drained s)))
              (elim (dec_lt 0 (length ch.buffer)) [
                | yes full ↦ subst (Effect (view b)) (ground (arith, short)) (drains refl full)
                | no empty ↦ subst (Effect (view b)) (ground (arith, short)) unseen
              ]);
        fewer = omega arith;
      }

  send-Section :
      (s : ComponentStatus) (x : S) {c : Broadcaster S}
      → advance_at f (drained s) x ≡ some c
      → Inv (record { component = x; phase = drained s })
      → Section (record { component = x; phase = drained s }) c
  unfolding advance_at
  send-Section s x {c} h v =
      let b : Broadcaster S = record { component = x; phase = drained s } in
      let ch = f.channel x in
      let sent : Chan ComponentStatus = record ch { buffer = ch.buffer ++ s ∷ [] } in
      let one : length sent.buffer ≡ 1 = omega (arith, length-append ch.buffer (s ∷ []), v.holds) in
      let e : record { component = f.put (f.status x) sent x; phase = waiting } ≡ c =
        ground (arith, v.capacity, v.holds) in
      subst (Section b) e (record {
        invariant = put-Inv (f.status x) sent x waiting v.capacity (omega (arith, one));
        effect =
            subst (Effect (view b))
              (sym (
                put-view (f.status x) sent x waiting
                ∙ ap (λ k. record { status = (f.status x).status; is_unsent = false; queued = k })
                    one))
              (sends 1 refl (omega arith) (omega arith));
        fewer = omega arith;
      })

  pub advance_at-Section :
      (l : Phase) (x : S) {c : Broadcaster S}
      → advance_at f l x ≡ some c
      → Inv (record { component = x; phase = l })
      → Section (record { component = x; phase = l }) c
  unfolding advance_at
  advance_at-Section waiting x h v = absurd (cc)
  advance_at-Section (stored s) x {c} h v =
      let e : record { component = f.put (f.status x) (drain (f.channel x)) x; phase = drained s }
          ≡ c =
        cc in
      subst (Section (record { component = x; phase = stored s })) e (drain-Section s x v)
  advance_at-Section (drained s) x h v = send-Section s x h v

  pub advance_at-goes :
      (l : Phase) (x : S)
      → Inv (record { component = x; phase = l })
      → 0 < sections_left l
      → (c : Broadcaster S) × (advance_at f l x ≡ some c)
  unfolding advance_at
  advance_at-goes waiting x v h = absurd (omega arith)
  advance_at-goes (stored s) x v h = (_, refl)
  advance_at-goes (drained s) x v h = elim (Option-cases (advance_at f (drained s) x)) [
    | inl waits ↦ absurd (ground (arith, v.capacity, v.holds))
    | inr goes ↦ goes
  ]

  pub unsent-left : (l : Phase) → is_unsent l ≡ true → 0 < sections_left l
  unsent-left waiting h = absurd (cc)
  unsent-left (stored s) h = omega arith
  unsent-left (drained s) h = omega arith

  pub receive-Inv : (b : Broadcaster S) → Inv b → Inv (receive b)
  unfolding drain
  receive-Inv b v =
      put-Inv (f.status b.component) (drain (f.channel b.component)) b.component b.phase v.capacity
        (omega (arith, length-drop_first (f.channel b.component).buffer, v.holds))

  pub view-receive :
      (b : Broadcaster S) → view (receive b) ≡ record (view b) { queued = (view b).queued - 1 }
  unfolding drain
  view-receive b =
      put-view (f.status b.component) (drain (f.channel b.component)) b.component b.phase
      ∙ ap (λ k. record (view b) { queued = k }) (length-drop_first (f.channel b.component).buffer)

  unfoldable pub broadcast_publisher : Publisher (Broadcaster S)
  unfolding store advance
  broadcast_publisher = record {
    view = view;
    IsSound = Inv;
    Calls = Calls;
    Goes = Goes;
    receive = receive;
    left = λ b. sections_left b.phase;
    calls_sound = λ {s} v h. (store_at-Stores s.phase h.0 s.component h.1 v).invariant;
    calls_effect = λ {s} v h. (store_at-Stores s.phase h.0 s.component h.1 v).effect;
    goes_sound = λ {s} v h. (advance_at-Section s.phase s.component h v).invariant;
    goes_effect = λ {s} v h. (advance_at-Section s.phase s.component h v).effect;
    goes_left = λ {s} v h. (advance_at-Section s.phase s.component h v).fewer;
    receive_left = λ s. omega arith;
    receive_sound = λ {s} v. receive-Inv s v;
    receive_view = λ {s} v. view-receive s;
    goes_on = λ {s} v. advance_at-goes s.phase s.component v;
    unsent_left = λ {s} v. unsent-left s.phase;
  }
