-- ===== src/Exporter/PdRoles/Tally.antt =====
-- What pdRoles counts: for a release and a role, the sums over exactly its items.
use llm_openresty.Base.{
  ℕ, ◌+◌, suc, ◌≡◌, refl, ap, ◌∙◌, Bool, true, false, not, ◌&&◌, inl, inr, none, some, List, [],
  ◌∷◌, Text, arith, text_eq, text_eq_iff, text_Eq, if◌then◌else◌, Bool-cases, word_mod, ◌<◌, ◌≤◌,
  ltb, nat_eq, add64_small,
}
use llm_openresty.Base.Dict.{put, get_or-put, get_or-nil}
use llm_openresty.Exporter.PdRoles.{
  PdRoleRep, no_rep, LwsItem, count_item, ByRole, Releases, roles_of, rep_of, release_key, role_of,
  unlabelled, fold_item, fold_items, add_item, pd_known_role, desired_ok, PdState, body,
  pd_answered,
}

-- The item counts for the release and the role.
abbrev pub counts_for : Text → Text → LwsItem → Bool
counts_for key role it =
    not (unlabelled it)
    && pd_known_role (role_of it)
    && text_eq (release_key it) key
    && text_eq (role_of it) role

-- The counts of the items of one release and role, in order, on top of what is there.
unfoldable pub tally : Text → Text → List LwsItem → PdRoleRep → PdRoleRep
tally key role [] rep = rep
tally key role (it ∷ l) rep =
    tally key role l (if counts_for key role it then count_item it rep else rep)

-- What the result holds for a release and a role: zero counts where there is no entry.
abbrev pub counted : Releases → Text → Text → PdRoleRep
counted out key role = rep_of (roles_of out key) role

if_same :
    (b : Bool) (r role : Text) (F : Text → PdRoleRep) (z : PdRoleRep)
    → (b ≡ true → r ≡ role)
    → (if b then F r else z) ≡ (if b then F role else z)
if_same true r role F z h = ap F (h refl)
if_same false r role F z h = refl

rep_of_update :
    (m : ByRole) (r role : Text) (f : PdRoleRep → PdRoleRep)
    → rep_of (put m r (f (rep_of m r))) role
      ≡ (if text_eq r role then f (rep_of m role) else rep_of m role)
rep_of_update m r role f =
    get_or-put m r role (f (rep_of m r)) no_rep
    ∙ if_same (text_eq r role) r role (λ x. f (rep_of m x)) (rep_of m role)
        (λ h. (text_eq_iff r role).0 h)

counted-put :
    (out : Releases) (k r key role : Text) (f : PdRoleRep → PdRoleRep)
    → counted (put out k (put (roles_of out k) r (f (counted out k r)))) key role
      ≡ (if text_eq k key && text_eq r role then f (counted out key role) else counted out key role)
counted-put out k r key role f =
    ap (λ m. rep_of m role) (get_or-put out k key (put (roles_of out k) r (f (counted out k r))) [])
    ∙ elim (Bool-cases (text_eq k key)) [
      | inl same ↦ rw same (
          rep_of_update (roles_of out k) r role f
          ∙ ap (λ x. if text_eq r role then f (counted out x role) else counted out x role)
              ((text_eq_iff k key).0 same))
      | inr other ↦ rw other
    ]

counted-add_item :
    (it : LwsItem) (out : Releases) (key role : Text)
    → counted (add_item it out) key role ≡ (
        if text_eq (release_key it) key && text_eq (role_of it) role
        then count_item it (counted out key role)
        else counted out key role)
unfolding add_item
counted-add_item it out key role =
    counted-put out (release_key it) (role_of it) key role (count_item it)

counted-fold_item :
    (it : LwsItem) (acc : Releases × List Text) (key role : Text)
    → counted (fold_item it acc).0 key role ≡ (
        if counts_for key role it
        then count_item it (counted acc.0 key role)
        else counted acc.0 key role)
unfolding fold_item
counted-fold_item it (out, unknown) key role = ground (arith, counted-add_item it out key role)

counted-fold_items :
    (items : List LwsItem) (acc : Releases × List Text) (key role : Text)
    → counted (fold_items items acc).0 key role ≡ tally key role items (counted acc.0 key role)
unfolding fold_items tally
counted-fold_items [] acc key role = refl
counted-fold_items (it ∷ l) acc key role =
    counted-fold_items l (fold_item it acc) key role
    ∙ ap (tally key role l) (counted-fold_item it acc key role)

-- On an answer of the API server, what pdRoles holds for any release and role is the tally of the
-- items of that release and role whose labels are set and whose role is known, in order; it is zero
-- if there is none.
pub pd_answered-tally :
    (now : ℕ) (st : PdState) (items : List LwsItem) (key role : Text)
    → counted (pd_answered now st (body items)).0 key role ≡ tally key role items no_rep
unfolding pd_answered
pd_answered-tally now st items key role =
    counted-fold_items items ([], st.unknown_roles) key role
    ∙ ap (λ m. tally key role items (rep_of m role)) (get_or-nil key [])
    ∙ ap (tally key role items) (get_or-nil role no_rep)

module _ (key role : Text) where
  -- The numbers of counted items, and of those without a committed replica count.
  abbrev pub counted_items : List LwsItem → ℕ
  counted_items [] = 0
  counted_items (it ∷ l) =
      let rest = counted_items l in if counts_for key role it then suc rest else rest

  abbrev pub without_spec : List LwsItem → ℕ
  without_spec [] = 0
  without_spec (it ∷ l) =
      let rest = without_spec l in
      if counts_for key role it
      then elim it.spec_replicas [ none ↦ suc rest | some r ↦ rest ]
      else rest

  tally_slices :
      (items : List LwsItem) (rep : PdRoleRep)
      → rep.slices + counted_items items < word_mod
      → rep.with_spec ≤ rep.slices
      → ((tally key role items rep).slices ≡ rep.slices + counted_items items)
        × ((tally key role items rep).with_spec + without_spec items
            ≡ rep.with_spec + counted_items items)
  unfolding tally count_item
  tally_slices [] rep fits le = (omega arith, omega arith)
  tally_slices (it ∷ l) rep fits le = elim (Bool-cases (counts_for key role it)) [
    | inl counts ↦ rw counts (
        ground (
          arith,
          counts,
          add64_small rep.slices 1,
          add64_small rep.with_spec 1,
          tally_slices l (count_item it rep),
        ))
    | inr skipped ↦ rw skipped (ground (arith, skipped, tally_slices l rep))
  ]

-- What desiredOK says of the counts of a release and a role.
pub desired_ok-tally :
    (key role : Text) (items : List LwsItem)
    → counted_items key role items < word_mod
    → desired_ok (tally key role items no_rep)
      ≡ (ltb 0 (counted_items key role items) && nat_eq (without_spec key role items) 0)
unfolding desired_ok
desired_ok-tally key role items fits =
    let (slices, with_spec) = tally_slices key role items no_rep (omega arith) (omega arith) in
    ground (arith, slices, with_spec)
