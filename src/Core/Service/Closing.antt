-- ===== src/Core/Service/Closing.antt =====
-- Closing a service closes its components.
use go_healthcheck.Prelude.{true, All, ◌≡◌, refl, ◌↔◌, List, [], ◌∷◌, Option, none, String, arith}
use go_healthcheck.Channel.{done}
use go_healthcheck.Core.Interface.{ComponentApi}
use go_healthcheck.Core.Service.{Service, join, close_all, close_service}

-- errors.Join over all the errors, from the first on.
abbrev pub joined : Option String → List (Option String) → Option String
joined err [] = err
joined err (e ∷ es) = joined (join err e) es

joined-none_iff :
    (err : Option String) (es : List (Option String))
    → (joined err es ≡ none) ↔ ((err ≡ none) × All (λ e. e ≡ none) es)
unfolding join
joined-none_iff err [] = ground arith
joined-none_iff err (e ∷ es) = ground (arith, joined-none_iff (join err e) es)

module _ {S : Type 0} ⦃api : ComponentApi S⦄ where
  -- `ds` are the components `cs` after a Close of each, in which they returned the errors `es`.
  abbrev pub ClosedWith : List S → List (Option String) → List S → Type 0
  ClosedWith [] [] [] = Unit
  ClosedWith (c ∷ cs) (e ∷ es) (d ∷ ds) = (api.close c ≡ done (d, e)) × ClosedWith cs es ds
  ClosedWith _ _ _ = ⊥

  -- The loop of Close, component by component.
  close_all_returns :
      (err : Option String) (cs : List S) (es : List (Option String)) (ds : List S)
      → ClosedWith cs es ds
      → close_all err cs ≡ done (ds, joined err es)
  unfolding close_all
  close_all_returns err [] [] [] h = refl
  close_all_returns err [] (e ∷ es) ds h = elim h [ ]
  close_all_returns err [] [] (d ∷ ds) h = elim h [ ]
  close_all_returns err (c ∷ cs) [] ds h = elim h [ ]
  close_all_returns err (c ∷ cs) (e ∷ es) [] h = elim h [ ]
  close_all_returns err (c ∷ cs) (e ∷ es) (d ∷ ds) h =
      rw (h.0, close_all_returns (join err e) cs es ds h.1) refl

  -- Close closes every component: where their own Close calls return, it returns too, with the
  -- components closed and its context cancelled, and its error is nil exactly if all of theirs are.
  pub close_service_lem :
      (s : Service S) (es : List (Option String)) (ds : List S)
      → ClosedWith s.components es ds
      → (e : Option String) × (close_service s
          ≡ done (record s { components = ds; cancelled = true }, e))
        × ((e ≡ none) ↔ All (λ x. x ≡ none) es)
  unfolding close_service
  close_service_lem s es ds h = (
    joined none es,
    rw (close_all_returns none s.components es ds h) refl,
    ground (arith, joined-none_iff none es),
  )
