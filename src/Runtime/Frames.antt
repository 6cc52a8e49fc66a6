-- ===== src/Runtime/Frames.antt =====
-- What the bookkeeping of parked coroutines leaves alone, and which entries it takes out.
use bernardx.Base.{
  ℕ, ◌≡◌, refl, true, false, List, [], ◌∷◌, none, some, lookup, erase, has_value, lookup-erase,
  if◌then◌else◌, ◌==◌, arith,
}
use bernardx.Machine.{Lua}
use bernardx.Timer
use bernardx.Timer.{TimerManager}
use bernardx.Runtime.{Runtime}
use bernardx.Runtime.Builtins.{is_done}
use bernardx.Runtime.Pending.{
  unref_all, cancel_timer, unpin_pending_co, drop_pendings, handles_of, option_list,
}

-- Erasing each of some handles.
unfoldable pub erase_all : List ℕ → List (ℕ × ℕ) → List (ℕ × ℕ)
erase_all [] m = m
erase_all (h ∷ hs) m = erase_all hs (erase h m)

pub lookup-erase_all :
    (h : ℕ) (hs : List ℕ) (m : List (ℕ × ℕ))
    → lookup h (erase_all hs m) ≡ (if is_done h hs then none else lookup h m)
unfolding erase_all is_done
lookup-erase_all h [] m = refl
lookup-erase_all h (k ∷ hs) m =
    ground (arith, lookup-erase_all h hs (erase k m), lookup-erase k h m)

-- Every entry of the coroutine has its handle in the list.
abbrev pub Listed : ℕ → List ℕ → List (ℕ × ℕ) → Type 0
Listed co hs [] = Unit {0}
Listed co hs ((h, c) ∷ m) = ((c == co) ≡ true → is_done h hs ≡ true) × Listed co hs m

Listed-nil : (co : ℕ) (m : List (ℕ × ℕ)) → Listed co [] m → has_value co m ≡ false
unfolding has_value is_done
Listed-nil co [] l = refl
Listed-nil co ((h, c) ∷ m) l = ground (arith, l.0, Listed-nil co m l.1)

Listed-erase :
    (co k : ℕ) (hs : List ℕ) (m : List (ℕ × ℕ)) → Listed co (k ∷ hs) m → Listed co hs (erase k m)
unfolding erase is_done
Listed-erase co k hs [] l = tt
Listed-erase co k hs ((h, c) ∷ m) l = ground (arith, l.0, Listed-erase co k hs m l.1)

Listed-cons : (co k : ℕ) (hs : List ℕ) (m : List (ℕ × ℕ)) → Listed co hs m → Listed co (k ∷ hs) m
unfolding is_done
Listed-cons co k hs [] l = tt
Listed-cons co k hs ((h, c) ∷ m) l = (λ e. ground (arith, l.0 e), Listed-cons co k hs m l.1)

pub handles_of-Listed : (co : ℕ) (m : List (ℕ × ℕ)) → Listed co (handles_of co m) m
unfolding handles_of is_done
handles_of-Listed co [] = tt
handles_of-Listed co ((h, c) ∷ m) =
    ground (arith, Listed-cons co h (handles_of co m) m, handles_of-Listed co m)

pub erase_all-Listed :
    (co : ℕ) (hs : List ℕ) (m : List (ℕ × ℕ))
    → Listed co hs m
    → has_value co (erase_all hs m) ≡ false
unfolding erase_all
erase_all-Listed co [] m l = Listed-nil co m l
erase_all-Listed co (h ∷ hs) m l = erase_all-Listed co hs (erase h m) (Listed-erase co h hs m l)

pub is_done-handles_of :
    (h co : ℕ) (m : List (ℕ × ℕ)) → lookup h m ≡ some co → is_done h (handles_of co m) ≡ true
unfolding lookup handles_of is_done
is_done-handles_of h co [] e = cc
is_done-handles_of h co ((k, c) ∷ m) e = ground (arith, is_done-handles_of h co m)

module _ {S : Type 0} where
  -- A runtime with another Lua state, timers, pins and entries.
  abbrev pub reparked : Runtime S → S → TimerManager → List (ℕ × ℕ) → List (ℕ × ℕ) → Runtime S
  reparked rt s tm pins m = record rt { state = s; timers = tm; pins = pins; pending = m }

module _ {S : Type 0} (lua : Lua S) where
  pub unref_all_lem :
      (rs : List ℕ) (rt : Runtime S)
      → unref_all lua rs rt ≡ record rt { state = (unref_all lua rs rt).state }
  unfolding unref_all
  unref_all_lem [] rt = refl
  unref_all_lem (r ∷ rs) rt = unref_all_lem rs (record rt { state = lua.unref r rt.state })

  pub drop_pendings_lem :
      (hs : List ℕ) (rt : Runtime S)
      → (s : S) × (tm : TimerManager) × (drop_pendings lua hs rt
          ≡ reparked rt s tm (erase_all hs rt.pins) (erase_all hs rt.pending))
  unfolding drop_pendings cancel_timer unpin_pending_co erase_all
  drop_pendings_lem [] rt = (rt.state, rt.timers, refl)
  drop_pendings_lem (h ∷ hs) rt =
      let (r, tm) = Timer.cancel_timer h rt.timers in
      let u = unref_all_lem (option_list r) (record rt { timers = tm }) in
      let s = (unref_all lua (option_list r) (record rt { timers = tm })).state in
      let v = reparked rt s tm (erase h rt.pins) (erase h rt.pending) in
      let (s', tm', q) = drop_pendings_lem hs v in (s', tm', rw u q)
