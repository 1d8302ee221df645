-- ===== src/Client/Servers/Counted.antt =====
-- The counts of the servers and what the filters leave.
use server_hub.Prelude.{
  ℕ, Bool, not, List, [], ◌∷◌, ◌+◌, ◌&&◌, keep_if, length, if◌then◌else◌, ◌≡◌, refl, arith, subst,
  sym, Bool-cases, inl, inr,
}
use server_hub.Text.{Text, codes, eqb, eqb_sound}
use server_hub.Types.{ManagedServer}
use server_hub.Client.Servers.{has_status, is_unknown, counts}

one_if : Bool → ℕ
one_if b = if b then 1 else 0

-- How often a server with a status is counted.
times : Text → ℕ
unfolding one_if
times t =
    one_if (eqb t (codes "ONLINE"))
    + one_if (eqb t (codes "OFFLINE"))
    + one_if (eqb t (codes "WARNING"))
    + one_if (
        not (eqb t (codes "ONLINE"))
        && (not (eqb t (codes "OFFLINE")) && not (eqb t (codes "WARNING"))))

times_once : (t : Text) → times t ≡ 1
unfolding times
times_once t = elim (Bool-cases (eqb t (codes "ONLINE"))) [
  | inl e ↦ subst (λ u. times u ≡ 1) (sym (eqb_sound t (codes "ONLINE") e)) refl
  | inr e ↦ elim (Bool-cases (eqb t (codes "OFFLINE"))) [
    | inl f ↦ subst (λ u. times u ≡ 1) (sym (eqb_sound t (codes "OFFLINE") f)) refl
    | inr f ↦ elim (Bool-cases (eqb t (codes "WARNING"))) [
      | inl g ↦ subst (λ u. times u ≡ 1) (sym (eqb_sound t (codes "WARNING") g)) refl
      | inr g ↦ rw (e, f, g) refl
    ]
  ]
]

length-keep_if_cons :
    (p : ManagedServer → Bool) (s : ManagedServer) (ss : List ManagedServer)
    → length (keep_if p (s ∷ ss)) ≡ one_if (p s) + length (keep_if p ss)
unfolding keep_if one_if
length-keep_if_cons p s ss = ground arith

-- Every server is counted in exactly one of the four groups: together they are all servers.
pub counts_lem :
    (servers : List ManagedServer)
    → let c = counts servers in
      (c.online + c.offline + c.warning + c.unknown ≡ c.total) × (c.total ≡ length servers)
unfolding counts times
counts_lem servers = (sum servers, refl)
  where
    sum :
        (ss : List ManagedServer)
        → length (keep_if (has_status "ONLINE") ss)
            + length (keep_if (has_status "OFFLINE") ss)
            + length (keep_if (has_status "WARNING") ss)
            + length (keep_if is_unknown ss)
          ≡ length ss
    sum [] = refl
    sum (s ∷ ss) = omega (
      arith,
      sum ss,
      times_once s.status,
      length-keep_if_cons (has_status "ONLINE") s ss,
      length-keep_if_cons (has_status "OFFLINE") s ss,
      length-keep_if_cons (has_status "WARNING") s ss,
      length-keep_if_cons is_unknown s ss,
    )
