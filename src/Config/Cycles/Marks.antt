-- ===== src/Config/Cycles/Marks.antt =====
-- internal/scd/config/rules.go: the marks of findCycles.
use scd.Prelude.{
  String, ◌≡◌, ◌≢◌, refl, ◌⊎◌, inl, inr, ◌==◌, string_eq, Bool-cases, ==→eq, ==_false→ne, ==_refl,
  arith, sym,
}
use scd.Config.Cycles.{unseen, active, done, Search, set_mark}

-- A node that is marked active was not done, and one that is marked done is listed first.
pub set_active-done :
    (id v : String) (s : Search)
    → s.mark id ≡ unseen
    → s.mark v ≡ done
    → (set_mark id active s).mark v ≡ done
unfolding set_mark
set_active-done id v s e d = ground (arith, string_eq.beq_iff id v)

pub done-set_active :
    (id v : String) (s : Search) → (set_mark id active s).mark v ≡ done → s.mark v ≡ done
unfolding set_mark
done-set_active id v s d = ground arith

pub active-set_active :
    (id v : String) (s : Search)
    → (set_mark id active s).mark v ≡ active
    → (id ≡ v) ⊎ (s.mark v ≡ active)
unfolding set_mark
active-set_active id v s a = elim (Bool-cases (id == v)) [
  | inl y ↦ inl (==→eq id v y)
  | inr n ↦ inr (ground arith)
]

pub active-set_done :
    (id v : String) (s : Search)
    → (set_mark id done s).mark v ≡ active
    → (id ≢ v) × (s.mark v ≡ active)
unfolding set_mark
active-set_done id v s a = elim (Bool-cases (id == v)) [
  | inl y ↦ ground arith
  | inr n ↦ (==_false→ne id v n, ground arith)
]

pub done-set_done :
    (id v : String) (s : Search) → (set_mark id done s).mark v ≡ done → (v ≡ id) ⊎ (s.mark v ≡ done)
unfolding set_mark
done-set_done id v s d = elim (Bool-cases (id == v)) [
  | inl y ↦ inl (sym (==→eq id v y))
  | inr n ↦ inr (ground arith)
]

pub set_done-done :
    (id v : String) (s : Search) → s.mark v ≡ done → (set_mark id done s).mark v ≡ done
unfolding set_mark
set_done-done id v s d = ground arith

pub set_done_self : (id : String) (s : Search) → (set_mark id done s).mark id ≡ done
unfolding set_mark
set_done_self id s = rw (==_refl id) refl
