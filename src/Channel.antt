-- ===== src/Channel.antt =====
-- Go's buffered channels and the select statements that the program makes on them; a run-time panic
-- is a value. The head of a buffer is its oldest element.
use go_healthcheck.Prelude.{
  refl, ◌-◌, ◌+◌, ℕ, ◌≤◌, ◌≡◌, Bool, true, false, List, [], ◌∷◌, ◌++◌, String, arith, length, ltb,
  length-append, if◌then◌else◌, ◌<◌,
}

-- What a piece of Go code does: it returns, or it panics.
pub data Outcome {ℓ} (A : Type ℓ) : Type ℓ where
  done : A → Outcome A
  panics : String → Outcome A

infixl 5 ◌>>=◌
abbrev pub ◌>>=◌ {ℓ κ} : {A : Type ℓ} {B : Type κ} → Outcome A → (A → Outcome B) → Outcome B
done a >>= f = f a
panics m >>= f = panics m

pub record Chan {ℓ} (A : Type ℓ) : Type ℓ where
  pub capacity : ℕ
  pub buffer : List A
  pub is_closed : Bool

abbrev pub drop_first {ℓ} : {A : Type ℓ} → List A → List A
drop_first [] = []
drop_first (x ∷ xs) = xs

pub length-drop_first {ℓ} : {A : Type ℓ} (xs : List A) → length (drop_first xs) ≡ length xs - 1
length-drop_first [] = refl
length-drop_first (x ∷ xs) = omega arith

module _ {ℓ} {A : Type ℓ} where
  -- make(chan A, capacity)
  abbrev pub make : ℕ → Chan A
  make n = record { capacity = n; buffer = []; is_closed = false }

  -- The channel after an offer: a full buffer stays as it is.
  abbrev pub offered : A → Chan A → Chan A
  offered a c =
      if ltb (length c.buffer) c.capacity then record c { buffer = c.buffer ++ a ∷ [] } else c

  -- select { case c <- a: default: }
  unfoldable pub offer : A → Chan A → Outcome (Chan A)
  offer a c = if c.is_closed then panics "send on closed channel" else done (offered a c)

  -- select { case <-c: default: }
  unfoldable pub drain : Chan A → Chan A
  drain c = record c { buffer = drop_first c.buffer }

  -- close(c)
  unfoldable pub close : Chan A → Outcome (Chan A)
  close c =
      if c.is_closed then panics "close of closed channel" else done (record c { is_closed = true })

  -- The channel is open and can hold something, within its capacity.
  pub record IsOpen (c : Chan A) : Type 0 where
    pub not_closed : c.is_closed ≡ false
    pub room : 0 < c.capacity
    pub fits : length c.buffer ≤ c.capacity

  -- An offer to an open channel returns, and leaves it open with something to receive.
  pub offer_returns : (a : A) (c : Chan A) → IsOpen c → offer a c ≡ done (offered a c)
  unfolding offer
  offer_returns a c v = ground arith

  pub offered-IsOpen : (a : A) (c : Chan A) → IsOpen c → IsOpen (offered a c)
  offered-IsOpen a c v = ground (arith, length-append c.buffer (a ∷ []))

  pub offered_nonempty : (a : A) (c : Chan A) → IsOpen c → 0 < length (offered a c).buffer
  offered_nonempty a c v = ground (arith, length-append c.buffer (a ∷ []))

  pub length-offered : (a : A) (c : Chan A) → length (offered a c).buffer ≤ length c.buffer + 1
  length-offered a c = ground (arith, length-append c.buffer (a ∷ []))

  pub drain-IsOpen : (c : Chan A) → IsOpen c → IsOpen (drain c)
  unfolding drain
  drain-IsOpen c v = record {
    not_closed = v.not_closed;
    room = v.room;
    fits = omega (arith, length-drop_first c.buffer, v.fits);
  }

  pub make-IsOpen : (n : ℕ) → 0 < n → IsOpen (make n)
  make-IsOpen n pos = record { not_closed = refl; room = pos; fits = omega arith }
