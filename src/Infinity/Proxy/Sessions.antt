-- ===== src/Infinity/Proxy/Sessions.antt =====
-- The list of the sessions of infinity.c: the newest first, each with an id of its own.
use ryzen_build.Base.{
  ℕ, ◌+◌, ◌≤◌, ◌<◌, ◌≡◌, refl, arith, ◌==◌, if◌then◌else◌, Bool-cases, inl, inr, ==_iff,
}
use ryzen_build.Base.{List, [], ◌∷◌, length, Option, none, some}
use ryzen_build.Infinity.Session.{Session}
use ryzen_build.Infinity.Proxy.{find_session, store_session, session_unlink}

-- The ids go down from the last one given.
abbrev pub IsListed : ℕ → List Session → Type 0
IsListed n [] = Unit
IsListed n (s ∷ rest) = (s.id < n) × IsListed s.id rest

pub IsListed-weaken : (n k : ℕ) (ss : List Session) → n ≤ k → IsListed n ss → IsListed k ss
IsListed-weaken n k [] h l = l
IsListed-weaken n k (s ∷ rest) h l = (omega (arith, l.0), l.1)

pub length-IsListed : (n : ℕ) (ss : List Session) → IsListed n ss → length ss ≤ n
length-IsListed n [] l = omega arith
length-IsListed n (s ∷ rest) l = omega (arith, l.0, length-IsListed s.id rest l.1)

pub find-IsListed :
    (n : ℕ) (ss : List Session) (id : ℕ) → IsListed n ss → n ≤ id → find_session ss id ≡ none
unfolding find_session
find-IsListed n [] id l h = refl
find-IsListed n (s ∷ rest) id l h = ground (arith, l.0, find-IsListed s.id rest id l.1)

pub find-unlink :
    (n : ℕ) (ss : List Session) (id j : ℕ)
    → IsListed n ss
    → find_session (session_unlink id ss) j ≡ (if id == j then none else find_session ss j)
unfolding find_session session_unlink
find-unlink n [] id j l = ground arith
find-unlink n (s ∷ rest) id j l =
    ground (arith, find-unlink s.id rest id j l.1, find-IsListed s.id rest j l.1)

abbrev pub replaced : Option Session → Session → Option Session
replaced none s = none
replaced (some t) s = some s

pub find-store :
    (ss : List Session) (s : Session) (j : ℕ)
    → find_session (store_session s ss) j
      ≡ (if s.id == j then replaced (find_session ss j) s else find_session ss j)
unfolding find_session store_session
find-store [] s j = ground arith
find-store (t ∷ rest) s j = ground (arith, find-store rest s j)

pub IsListed-store :
    (n : ℕ) (ss : List Session) (s : Session) → IsListed n ss → IsListed n (store_session s ss)
unfolding store_session
IsListed-store n [] s l = l
IsListed-store n (t ∷ rest) s l = elim (Bool-cases (t.id == s.id)) [
  | inl e ↦ rw e (let q : t.id ≡ s.id = (==_iff t.id s.id).0 e in rw q at l)
  | inr e ↦ rw e (l.0, IsListed-store t.id rest s l.1)
]

pub length-store : (ss : List Session) (s : Session) → length (store_session s ss) ≡ length ss
unfolding store_session
length-store [] s = refl
length-store (t ∷ rest) s = ground (arith, length-store rest s)

pub IsListed-unlink :
    (n : ℕ) (ss : List Session) (id : ℕ) → IsListed n ss → IsListed n (session_unlink id ss)
unfolding session_unlink
IsListed-unlink n [] id l = l
IsListed-unlink n (t ∷ rest) id l = elim (Bool-cases (t.id == id)) [
  | inl e ↦ rw e (IsListed-weaken t.id n rest (omega (arith, l.0)) l.1)
  | inr e ↦ rw e (l.0, IsListed-unlink t.id rest id l.1)
]

pub length-unlink :
    (ss : List Session) (id : ℕ) (s : Session)
    → find_session ss id ≡ some s
    → length (session_unlink id ss) + 1 ≡ length ss
unfolding find_session session_unlink
length-unlink [] id s h = ground (arith, h)
length-unlink (t ∷ rest) id s h = ground (arith, h, length-unlink rest id s)

pub find-id : (ss : List Session) (id : ℕ) (s : Session) → find_session ss id ≡ some s → s.id ≡ id
unfolding find_session
find-id [] id s h = ground (arith, h)
find-id (t ∷ rest) id s h = ground (arith, h, find-id rest id s)
