-- ===== src/Libraries.antt =====
-- The state that a library keeps per Lua state: LibraryState of src/lua/library_state.h, whose shared
-- pointer is in a userdata under a key of the registry.
pub mod Closed
use bernardx.Base.{
  ℕ, suc, ◌+◌, ◌<◌, ◌≡◌, ◌≢◌, refl, sym, ap, ◌∙◌, true, false, List, [], ◌∷◌, Option, none, some,
  lookup, insert, erase, lookup-insert, lookup-erase, ==_refl, if_both, if◌then◌else◌, ◌==◌,
  Bool-cases, inl, inr, arith,
}
use mathlib.Core.Path.{subst}

-- The registry's entries, which are userdata, the states that userdata hold, and the next userdata.
pub record Registry (T : Type 0) : Type 0 where
  pub entries : List (ℕ × ℕ)
  pub slots : List (ℕ × T)
  pub next_slot : ℕ

abbrev pub empty_registry : {T : Type 0} → Registry T
empty_registry = record { entries = []; slots = []; next_slot = 0 }

abbrev IsBelow : ℕ → Option ℕ → Type 0
IsBelow n none = Unit {0}
IsBelow n (some i) = i < n

IsBelow-suc : (n : ℕ) (o : Option ℕ) → IsBelow n o → IsBelow (suc n) o
IsBelow-suc n none h = tt
IsBelow-suc n (some i) h = omega arith

IsBelow-new :
    (n key k : ℕ) (table : List (ℕ × ℕ))
    → IsBelow n (lookup k table)
    → IsBelow (suc n) (lookup k (insert key n table))
IsBelow-new n key k table h =
    subst (IsBelow (suc n)) (sym (lookup-insert key k n table))
      (if_both (IsBelow (suc n)) (key == k) (omega arith) (IsBelow-suc n (lookup k table) h))

module _ {T : Type 0} where
  -- Set
  unfoldable pub set : ℕ → T → Registry T → Registry T
  set key state r = record r {
    entries = insert key r.next_slot r.entries;
    slots = insert r.next_slot state r.slots;
    next_slot = suc r.next_slot;
  }

  abbrev slot_state : Option ℕ → Registry T → Option T
  slot_state none r = none
  slot_state (some i) r = lookup i r.slots

  -- Get: none is nullptr.
  unfoldable pub get : ℕ → Registry T → Option T
  get key r = slot_state (lookup key r.entries) r

  -- Gc, which drops the shared pointer of a userdata.
  unfoldable pub gc : ℕ → Registry T → Registry T
  gc i r = record r { slots = erase i r.slots }

  -- Calls of Set and the collection of userdata that the registry does not refer to.
  pub data History : Registry T → List (ℕ × T) → Type 0 where
    start : History empty_registry []
    sets :
        {r : Registry T} {m : List (ℕ × T)} (key : ℕ) (state : T)
        → History r m
        → History (set key state r) (insert key state m)
    collects :
        {r : Registry T} {m : List (ℕ × T)} (i : ℕ)
        → ((key : ℕ) → lookup key r.entries ≢ some i)
        → History r m
        → History (gc i r) m

  record Agrees (r : Registry T) (m : List (ℕ × T)) : Type 0 where
    below : (key : ℕ) → IsBelow r.next_slot (lookup key r.entries)
    same : (key : ℕ) → get key r ≡ lookup key m

  slot-set :
      (o : Option ℕ) (key : ℕ) (state : T) (r : Registry T)
      → IsBelow r.next_slot o
      → slot_state o (set key state r) ≡ slot_state o r
  unfolding set
  slot-set none key state r h = refl
  slot-set (some i) key state r h = ground (arith, lookup-insert r.next_slot i state r.slots)

  slot-gc :
      (o : Option ℕ) (i : ℕ) (r : Registry T) → o ≢ some i → slot_state o (gc i r) ≡ slot_state o r
  unfolding gc
  slot-gc none i r h = refl
  slot-gc (some j) i r h =
      ground (arith, lookup-erase i j r.slots, λ (e : i ≡ j). h (ap some (sym e)))

  -- Get of the key that was Set, and of another.
  get-set :
      (key k : ℕ) (state : T) (r : Registry T)
      → IsBelow r.next_slot (lookup k r.entries)
      → get k (set key state r) ≡ (if key == k then some state else get k r)
  unfolding get set
  get-set key k state r h =
      ap (λ o. slot_state o (set key state r)) (lookup-insert key k r.next_slot r.entries)
      ∙ elim (Bool-cases (key == k)) [
        | inl e ↦
            rw e
              (lookup-insert r.next_slot r.next_slot state r.slots ∙ rw (==_refl r.next_slot) refl)
        | inr e ↦ rw e (slot-set (lookup k r.entries) key state r h)
      ]

  start-Agrees : Agrees empty_registry []
  unfolding get lookup
  start-Agrees = record { below = λ k. tt; same = λ k. refl }

  set-Agrees :
      (r : Registry T) (m : List (ℕ × T)) (key : ℕ) (state : T)
      → Agrees r m
      → Agrees (set key state r) (insert key state m)
  unfolding set
  set-Agrees r m key state a = record {
    below = λ k. IsBelow-new r.next_slot key k r.entries (a.below k);
    same = λ k.
        get-set key k state r (a.below k)
        ∙ (ap (λ o. if key == k then some state else o) (a.same k)
            ∙ sym (lookup-insert key k state m));
  }

  gc-Agrees :
      (r : Registry T) (m : List (ℕ × T)) (i : ℕ)
      → ((key : ℕ) → lookup key r.entries ≢ some i)
      → Agrees r m
      → Agrees (gc i r) m
  unfolding gc get
  gc-Agrees r m i free a = record {
    below = a.below;
    same = λ k. slot-gc (lookup k r.entries) i r (free k) ∙ a.same k;
  }

  agrees : {r : Registry T} {m : List (ℕ × T)} → History r m → Agrees r m
  agrees start = start-Agrees
  agrees (sets {r} {m} key state h) = set-Agrees r m key state (agrees h)
  agrees (collects {r} {m} i free h) = gc-Agrees r m i free (agrees h)

  -- Over any history of calls of Set with any keys, and of collections of userdata that the
  -- registry does not refer to, Get gives for a key the state of its last Set, and nullptr for a key
  -- without one.
  pub get-History :
      {r : Registry T} {m : List (ℕ × T)} (key : ℕ) → History r m → get key r ≡ lookup key m
  get-History key h = (agrees h).same key
