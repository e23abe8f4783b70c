-- ===== src/Infinity/Config/HostPort.antt =====
-- What `parse_host_port` of infinity.c accepts.
use ryzen_build.Base.{
  ℕ, zero, suc, ◌<◌, ◌≡◌, ◌↔◌, refl, ap, arith, leb, ◌==◌, ◌||◌, take, drop, length,
}
use ryzen_build.Base.{
  Bool-cases, inl, inr, List, [], ◌∷◌, ◌++◌, Option, none, some, Option-cases, ==_iff,
}
use ryzen_build.Base.{strrchr}
use ryzen_build.Infinity.Config.{colon, host_port_at, split_at, parse_host_port}

-- The last `c` is at index `i`.
record IsLast (xs : List ℕ) (c i : ℕ) : Type 0 where
  parts : xs ≡ take i xs ++ c ∷ drop (suc i) xs
  no_later : strrchr (drop (suc i) xs) c ≡ none
  place : length (take i xs) ≡ i

strrchr-IsLast : (xs : List ℕ) (c i : ℕ) → strrchr xs c ≡ some i → IsLast xs c i
unfolding strrchr
strrchr-IsLast [] c i h = absurd (ground (arith, h))
strrchr-IsLast (x ∷ xs) c zero h = elim (Option-cases (strrchr xs c)) [
  | inl e ↦
      let same : x ≡ c = ground (arith, h, e) in
      record { parts = ap (λ (y : ℕ). y ∷ xs) same; no_later = e; place = refl }
  | inr (j, e) ↦ absurd (ground (arith, h, e))
]
strrchr-IsLast (x ∷ xs) c (suc i) h = elim (Option-cases (strrchr xs c)) [
  | inl e ↦ absurd (ground (arith, h, e))
  | inr (j, e) ↦
      let rest = strrchr-IsLast xs c i (ground (arith, h, e)) in
      record {
        parts = ap (λ (ys : List ℕ). x ∷ ys) rest.parts;
        no_later = rest.no_later;
        place = ap suc rest.place;
      }
]

strrchr-append :
    (h p : List ℕ) (c : ℕ) → strrchr p c ≡ none → strrchr (h ++ c ∷ p) c ≡ some (length h)
unfolding strrchr
strrchr-append [] p c e = rw e (rw ((==_iff c c).1 refl) refl)
strrchr-append (x ∷ h) p c e = rw (strrchr-append h p c e) (ap some (omega arith))

take-front :
    (h p : List ℕ) (c : ℕ)
    → (take (length h) (h ++ c ∷ p) ≡ h) × (drop (suc (length h)) (h ++ c ∷ p) ≡ p)
take-front [] p c = (refl, refl)
take-front (x ∷ h) p c = let (a, b) = take-front h p c in (ap (λ (ys : List ℕ). x ∷ ys) a, b)

-- A host and a port that stand in the text and fit.
pub record IsHostPort (input : List ℕ) (host_sz port_sz : ℕ) (host port : List ℕ) : Type 0 where
  pub written : input ≡ host ++ colon ∷ port
  pub no_colon : strrchr port colon ≡ none
  pub host_fits : (0 < length host) × (length host < host_sz)
  pub port_fits : (0 < length port) × (length port < port_sz)

abbrev unpair : Option (List ℕ × List ℕ) → List ℕ × List ℕ
unpair none = ([], [])
unpair (some x) = x

host_port_at_lem :
    (i : ℕ) (input host port : List ℕ) (m n : ℕ)
    → host_port_at i input m n ≡ some (host, port)
    → (take i input ≡ host)
      × (drop (suc i) input ≡ port)
      × (0 < i)
      × (0 < length port)
      × (length host < m)
      × (length port < n)
unfolding host_port_at
host_port_at_lem i input host port m n h =
    elim (Bool-cases ((i == 0) || (length (drop (suc i) input) == 0))) [
      | inl e ↦ absurd (ground (arith, h, e))
      | inr e ↦
          elim (Bool-cases (leb m (length (take i input)) || leb n (length (drop (suc i) input)))) [
            | inl k ↦ absurd (ground (arith, h, e, k))
            | inr k ↦
                let got : some (take i input, drop (suc i) input) ≡ some (host, port) =
                  rw e at (rw k at h) in
                let a : take i input ≡ host = ap (λ o. (unpair o).0) got in
                let b : drop (suc i) input ≡ port = ap (λ o. (unpair o).1) got in
                let la = ap (length {A = ℕ}) a in
                let lb = ap (length {A = ℕ}) b in
                (
                  a,
                  b,
                  ground (arith, e),
                  ground (arith, e, lb),
                  ground (arith, k, la),
                  ground (arith, k, lb),
                )
          ]
    ]

split_lem :
    (o : Option ℕ) (input host port : List ℕ) (m n : ℕ)
    → split_at o input m n ≡ some (host, port)
    → (i : ℕ) × (o ≡ some i) × (host_port_at i input m n ≡ some (host, port))
split_lem none input host port m n h = absurd (ground (arith, h))
split_lem (some i) input host port m n h = (i, refl, h)

pub accepted-IsHostPort :
    (input host port : List ℕ) (m n : ℕ)
    → parse_host_port input m n ≡ some (host, port)
    → IsHostPort input m n host port
unfolding parse_host_port
accepted-IsHostPort input host port m n h =
    let (i, e, k) = split_lem (strrchr input colon) input host port m n h in
    let f = strrchr-IsLast input colon i e in
    let (a, b, pos, some_port, hm, hn) = host_port_at_lem i input host port m n k in
    record {
      written = rw b at (rw a at f.parts);
      no_colon = rw b at f.no_later;
      host_fits = (omega (arith, ap (length {A = ℕ}) a, f.place), hm);
      port_fits = (some_port, hn);
    }

host_port-accepted :
    (host port : List ℕ) (m n : ℕ)
    → IsHostPort (host ++ colon ∷ port) m n host port
    → parse_host_port (host ++ colon ∷ port) m n ≡ some (host, port)
unfolding parse_host_port host_port_at
host_port-accepted host port m n w =
    let (a, b) = take-front host port colon in
    rw (strrchr-append host port colon w.no_colon)
      (rw a (rw b (ground (arith, w.host_fits, w.port_fits))))

-- For any sizes of the two arrays, a text gives a host and a port exactly if it is the host, a colon
-- and the port, which has no colon itself, neither is empty, and both fit with their terminators.
pub parse_host_port_iff :
    (input host port : List ℕ) (m n : ℕ)
    → (parse_host_port input m n ≡ some (host, port)) ↔ IsHostPort input m n host port
unfolding parse_host_port
parse_host_port_iff input host port m n = (
  accepted-IsHostPort input host port m n,
  λ w. rw (w.written) (host_port-accepted host port m n (rw (w.written) at w)),
)
