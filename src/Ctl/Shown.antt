-- ===== src/Ctl/Shown.antt =====
-- What the tool shows of a pair that it has added.
use ryzen_build.Base.{
  ℕ, ◌+◌, ◌^◌, ◌<◌, ◌≡◌, inl, inr, refl, sym, ap, ◌∙◌, arith, u32, bytes, decimal, same_text,
  strtoul_u32, strtoul_u32-decimal,
}
use ryzen_build.Base.{some, Option-cases, true, List, [], ◌∷◌, ◌++◌}
use ryzen_build.Dawnhex.Types.{Text, Pair, State, Event, Ret, ok, err}
use ryzen_build.Dawnhex.Duo.{dh_duo_add_pair, dh_duo_lookup_pair, new_pair, pair_at}
use ryzen_build.Dawnhex.Duo.Table.{IsTable}
use ryzen_build.Dawnhex.Duo.Map.{pair_of, pair_of-dh_duo_add_pair}
use ryzen_build.Dawnhex.Device.{Reply, dh_ioctl, ioctl_body, copy_out, pair_uapi}
use ryzen_build.Dawnhex.Device.Ioctl.{add_pair, get_pair}
use ryzen_build.Ctl.{
  Exit, exited, asleep, Run, succeeded, pair_line, shown, after_ioctl, call_ioctl, command, main,
}

-- The id that an addition gives.
added_id :
    (s : State) (a b mode : ℕ)
    → (dh_duo_add_pair s a b mode).1 ≡ ok
    → (dh_duo_add_pair s a b mode).2 ≡ u32 (s.duo.next_pair_id + 1)
unfolding dh_duo_add_pair
added_id s a b mode h = ground (arith, h)

-- The answer to an addition, and what the tool makes of it.
abbrev add_reply : State × Ret × ℕ → State × Reply
add_reply (s, ok, id) = (s, Reply.out_pair_id id)
add_reply (s, err e, id) = (s, Reply.error e)

abbrev copied : State × Reply → State × Reply
copied (s, r) = (s, copy_out true r)

add_body :
    (s : State) (a b mode : ℕ)
    → ioctl_body s (add_pair a b mode) ≡ add_reply (dh_duo_add_pair s a b mode)
unfolding ioctl_body
add_body s a b mode = either (dh_duo_add_pair s a b mode)
  where
    either :
        (t : State × Ret × ℕ)
        → (let (s', r, id) = t in
            elim r as (λ x. State × Reply) [
              | ok ↦ (s', Reply.out_pair_id id)
              | err e ↦ (s', Reply.error e)
            ])
          ≡ add_reply t
    either (s', ok, id) = refl
    either (s', err e, id) = refl

-- A run that ends with 0 has added the pair.
add_succeeded :
    (t : State × Ret × ℕ)
    → (after_ioctl (copied (add_reply t))).exit ≡ exited 0
    → (t.1 ≡ ok)
      × (after_ioctl (copied (add_reply t)) ≡ succeeded t.0 (shown (Reply.out_pair_id t.2)))
unfolding copy_out
add_succeeded (s, ok, id) h = (refl, refl)
add_succeeded (s, err e, id) h = absurd (one_zero h)
  where
    status : Exit → ℕ
    status (exited n) = n
    status asleep = 0

    one_zero : exited 1 ≡ exited 0 → ⊥
    one_zero q = omega (arith, ap status q)

-- The answer for a pair that the table has.
get_body :
    (s : State) (id k : ℕ)
    → dh_duo_lookup_pair s id ≡ some k
    → call_ioctl s (get_pair id) ≡ succeeded s (pair_line (pair_uapi (pair_at s k)))
unfolding call_ioctl dh_ioctl ioctl_body copy_out shown
get_body s id k e =
    let body : ioctl_body s (get_pair id) ≡ (s, Reply.pair (pair_uapi (pair_at s k))) =
      ground (arith, e) in
    ap (λ (x : State × Reply). after_ioctl (copied x)) body

get_shown :
    (s : State) (id : ℕ) (p : Pair)
    → pair_of s id ≡ some p
    → call_ioctl s (get_pair id) ≡ succeeded s (pair_line (pair_uapi p))
unfolding pair_of
get_shown s id p h = elim (Option-cases (dh_duo_lookup_pair s id)) [
  | inl e ↦ absurd (ground (arith, e, h))
  | inr (k, e) ↦
      let same : pair_at s k ≡ p = ground (arith, e, h) in
      get_body s id k e ∙ ap (λ (q : Pair). succeeded s (pair_line (pair_uapi q))) same
]

module _ (render : Event → Text) where
  main-add :
      (s : State) (a b mode : Text) (rest : List Text)
      → main render s true (bytes "duo-add" ∷ a ∷ b ∷ mode ∷ rest)
        ≡ after_ioctl (
            copied
              (add_reply (dh_duo_add_pair s (strtoul_u32 a) (strtoul_u32 b) (strtoul_u32 mode))))
  unfolding main command same_text call_ioctl dh_ioctl
  main-add s a b mode rest =
      ap (λ (x : State × Reply). after_ioctl (copied x))
        (add_body s (strtoul_u32 a) (strtoul_u32 b) (strtoul_u32 mode))

  main-get :
      (s : State) (id : ℕ)
      → id < 2 ^ 32
      → main render s true (bytes "duo-get" ∷ decimal id ∷ []) ≡ call_ioctl s (get_pair id)
  unfolding main command same_text
  main-get s id h = ap (λ (n : ℕ). call_ioctl s (get_pair n)) (strtoul_u32-decimal id h)

  -- If the table of pairs is in order with an id left to give, and the tool ends with 0 for `duo-add`
  -- with three arguments, it has printed the next id; and `duo-get` with that number as it was printed,
  -- as the next run, ends with 0, leaves the module as it is and prints the new pair with the numbers
  -- that the three arguments begin with.
  pub main-duo_get-duo_add :
      (s : State) (a b mode : Text) (rest : List Text)
      → IsTable s
      → s.duo.next_pair_id + 1 < 2 ^ 32
      → (main render s true (bytes "duo-add" ∷ a ∷ b ∷ mode ∷ rest)).exit ≡ exited 0
      → let added = main render s true (bytes "duo-add" ∷ a ∷ b ∷ mode ∷ rest) in
        let id = s.duo.next_pair_id + 1 in
        let p = new_pair id (strtoul_u32 a) (strtoul_u32 b) (strtoul_u32 mode) in
        (added.out ≡ bytes "pair_id=" ++ (decimal id ++ bytes "\n"))
        × (main render added.state true (bytes "duo-get" ∷ decimal id ∷ [])
            ≡ succeeded added.state (pair_line (pair_uapi p)))
  unfolding shown
  main-duo_get-duo_add s a b mode rest t room h =
      let x = strtoul_u32 a in
      let y = strtoul_u32 b in
      let z = strtoul_u32 mode in
      let id = s.duo.next_pair_id + 1 in
      let s' = (dh_duo_add_pair s x y z).0 in
      let run = main-add s a b mode rest in
      let (good, done) =
        add_succeeded (dh_duo_add_pair s x y z) (sym (ap (λ (r : Run). r.exit) run) ∙ h) in
      let same : (dh_duo_add_pair s x y z).2 ≡ id = added_id s x y z good ∙ omega (arith, room) in
      let whole = run ∙ done in
      let there : pair_of s' id ≡ some (new_pair id x y z) =
        pair_of-dh_duo_add_pair s x y z id t room good ∙ ground arith in
      (
        ap (λ (r : Run). r.out) whole
            ∙ ap (λ (n : ℕ). bytes "pair_id=" ++ (decimal n ++ bytes "\n")) same,
        ap (λ (r : Run). main render r.state true (bytes "duo-get" ∷ decimal id ∷ [])) whole
            ∙ (main-get s' id room
                ∙ (get_shown s' id (new_pair id x y z) there
                    ∙ ap
                        (λ (r : Run). succeeded r.state (pair_line (pair_uapi (new_pair id x y z))))
                        (sym whole))),
      )
