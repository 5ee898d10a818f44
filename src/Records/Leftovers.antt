-- ===== src/Records/Leftovers.antt =====
-- What the run of a deleted record leaves at a provider where it lets go of the record.
use kube_dns_manager.Prelude.{
  ℕ, String, ◌≡◌, ◌⊎◌, sym, ap, ◌∙◌, subst, true, false, none, some, List, [], ◌∷◌, ◌-◌, arith,
  ◌==◌, eq_iff, any, Bool-cases, Option-cases, inl, inr, false≢true,
}
use kube_dns_manager.Effects.{Error, is_not_found, Result-cases, ok, err}
use kube_dns_manager.Api.Meta.{NamespacedName, equal_iff, key_of}
use kube_dns_manager.Api.Record.{Record, RecordProviderStatus, error}
use kube_dns_manager.Api.Provider.{Provider}
use kube_dns_manager.Dns.{Cache, new_payload, ready_provider}
use kube_dns_manager.Dns.Contract.{Table}
use kube_dns_manager.Records.Client.{RecordCluster}
use kube_dns_manager.Records.Statuses.{not_ready}
use kube_dns_manager.Records.Compaction.{present}
use kube_dns_manager.Records.Emptied.{Around, has}
use kube_dns_manager.Records.Orphans.{Kept, conclude-none, delete-Kept}
use kube_dns_manager.Records.{conclude, get_provider, release_from, release, release_all}

-- The loop over the statuses asked for the provider of a status that has the ID, and the answer was
-- that there is none of its name.
abbrev pub NoProvider :
    {W : Type 0}
    → RecordCluster W
    → Cache W
    → Record
    → NamespacedName
    → String
    → List RecordProviderStatus
    → W
    → Type 0
NoProvider cluster cache r name id [] w = ⊥
NoProvider cluster cache r name id (s ∷ ss) w =
    ((has name id s ≡ true)
      × (s.checked ≡ false)
      × ((e : Error) × ((get_provider cluster name w).0 ≡ err e) × (is_not_found e ≡ true)))
    ⊎ NoProvider cluster cache r name id ss (release cluster cache r s w).1

module _ {W E : Type 0} (cluster : RecordCluster W) (cache : Cache W) (r : Record)
    (name : NamespacedName) (table : W → Table E) (around : Around cluster cache name table)
    (id : String) (named : (id == "") ≡ false) where
  release_from-none :
      (p : Provider) (s : RecordProviderStatus) (w : W)
      → table w id ≡ none
      → table (release_from cluster cache r p s w).1 id ≡ none
  unfolding release_from
  release_from-none p s w h = elim (Option-cases (ready_provider cache p)) [
    | inl unready ↦
        let e : (release_from cluster cache r p s w).1 ≡ w = ground (arith, unready) in
        ap (λ v. table v id) e ∙ h
    | inr (dns, ready) ↦
        let (answer, w1) = dns.delete (new_payload s r.spec) w in
        let e : (release_from cluster cache r p s w).1
            ≡ (conclude cluster r.meta "Deleted" "deleted" "delete" answer s w1).1 =
          ground (arith, ready) in
        ap (λ v. table v id) e
        ∙ conclude-none cluster cache r name table around id named r.meta "Deleted" "deleted"
            "delete" answer s w1 (around.deletions p dns (new_payload s r.spec) w id ready h)
  ]

  -- The branches of a round of the loop over the statuses.
  release_cases :
      (s : RecordProviderStatus) (w : W)
      → (release cluster cache r s w ≡ (some s, w))
        ⊎ (((e : Error) × (s.checked ≡ false)
              × ((get_provider cluster s.named w).0 ≡ err e)
              × (is_not_found e ≡ true)
              × (release cluster cache r s w ≡ (none, (get_provider cluster s.named w).1)))
            ⊎ (((e : Error) × (release cluster cache r s w
                    ≡ (some (error s s.record_id s.data_ e), (get_provider cluster s.named w).1)))
                ⊎ ((p : Provider) × ((get_provider cluster s.named w).0 ≡ ok p)
                    × (((s.record_id ≡ "")
                          × (release cluster cache r s w
                              ≡ (none, (get_provider cluster s.named w).1)))
                        ⊎ (release cluster cache r s w
                            ≡ release_from cluster cache r p s
                                (get_provider cluster s.named w).1)))))
  unfolding release
  release_cases s w = elim (Bool-cases s.checked) [
    | inl seen ↦ inl (ground (arith, seen))
    | inr unseen ↦ inr (elim (Result-cases (get_provider cluster s.named w).0) [
      | inl (p, got) ↦ inr (
          inr (
            p,
            got,
            elim (Bool-cases (s.record_id == "")) [
              | inl empty ↦
                  inl ((eq_iff s.record_id "").0 empty, ground (arith, unseen, got, empty))
              | inr full ↦ inr (ground (arith, unseen, got, full))
            ],
          ))
      | inr (e, failed) ↦ elim (Bool-cases (is_not_found e)) [
        | inl missing ↦ inl (e, unseen, failed, missing, ground (arith, unseen, failed, missing))
        | inr other ↦ inr (inl (e, ground (arith, unseen, failed, other)))
      ]
    ])
  ]

  release-none :
      (s : RecordProviderStatus) (w : W)
      → table w id ≡ none
      → table (release cluster cache r s w).1 id ≡ none
  release-none s w h =
      let w1 = (get_provider cluster s.named w).1 in
      let h1 = around.lookups s.named w id h in
      elim (release_cases s w) [
        | inl e ↦ ap (λ x. table x.1 id) e ∙ h
        | inr (inl (_, _, _, _, e)) ↦ ap (λ x. table x.1 id) e ∙ h1
        | inr (inr (inl (_, e))) ↦ ap (λ x. table x.1 id) e ∙ h1
        | inr (inr (inr (p, _, inl (_, e)))) ↦ ap (λ x. table x.1 id) e ∙ h1
        | inr (inr (inr (p, _, inr e))) ↦ ap (λ x. table x.1 id) e ∙ release_from-none p s w1 h1
      ]

  release_all-none :
      (ss : List RecordProviderStatus) (count : ℕ) (w : W)
      → table w id ≡ none
      → table (release_all cluster cache r ss count w).1 id ≡ none
  unfolding release_all
  release_all-none [] count w h = h
  release_all-none (s ∷ ss) count w h =
      let h1 = release-none s w h in
      let w1 = (release cluster cache r s w).1 in
      elim (Option-cases (release cluster cache r s w).0) [
        | inl gone ↦ rw gone (release_all-none ss (count - 1) w1 h1)
        | inr (s', kept) ↦ rw kept (release_all-none ss count w1 h1)
      ]

  release_from-Kept :
      (p : Provider) (s : RecordProviderStatus) (w : W)
      → key_of p.meta ≡ name
      → has name id s ≡ true
      → (table (release_from cluster cache r p s w).1 id ≡ none)
        ⊎ ((s' : RecordProviderStatus) × ((release_from cluster cache r p s w).0 ≡ some s')
            × (has name id s' ≡ true))
  unfolding release_from
  release_from-Kept p s w own h = elim (Option-cases (ready_provider cache p)) [
    | inl unready ↦ inr (not_ready s, ground (arith, unready), h)
    | inr (dns, ready) ↦
        let (answer, w1) = dns.delete (new_payload s r.spec) w in
        let told = conclude cluster r.meta "Deleted" "deleted" "delete" answer s w1 in
        elim (delete-Kept cluster cache r name table around id named dns s w
          (around.own p dns own ready) h) [
            | inl gone ↦
                let e : (release_from cluster cache r p s w).1 ≡ told.1 = ground (arith, ready) in
                inl (ap (λ v. table v id) e ∙ gone)
            | inr (holds, (e, failed)) ↦ inr (told.0, ground (arith, ready, failed), holds)
          ]
  ]

  -- The status that has the ID, in a round: the place is emptied, the status keeps the ID, or the
  -- provider is not there.
  release-Kept :
      (s : RecordProviderStatus) (w : W)
      → has name id s ≡ true
      → (table (release cluster cache r s w).1 id ≡ none)
        ⊎ (((s' : RecordProviderStatus) × ((release cluster cache r s w).0 ≡ some s')
              × (has name id s' ≡ true))
            ⊎ ((s.checked ≡ false)
                × ((e : Error) × ((get_provider cluster name w).0 ≡ err e)
                    × (is_not_found e ≡ true))))
  unfolding error
  release-Kept s w h =
      let w1 = (get_provider cluster s.named w).1 in
      let mine : s.named ≡ name = (equal_iff s.named name).0 (ground (arith, h)) in
      let id_same : s.record_id ≡ id = (eq_iff s.record_id id).0 (ground (arith, h)) in
      elim (release_cases s w) [
        | inl e ↦ inr (inl (s, ap (λ x. x.0) e, h))
        | inr (inl (f, unseen, missing, not_found, e)) ↦ inr (
            inr (
              unseen,
              (f, subst (λ n. (get_provider cluster n w).0 ≡ err f) mine missing, not_found),
            ))
        | inr (inr (inl (f, e))) ↦
            inr (inl (error s s.record_id s.data_ f, ap (λ x. x.0) e, ground (arith, h)))
        | inr (inr (inr (p, got, inl (empty, e)))) ↦
            absurd (false≢true (sym named ∙ (eq_iff id "").1 (sym id_same ∙ empty)))
        | inr (inr (inr (p, got, inr e))) ↦
            elim (release_from-Kept p s w1 (around.found s.named w p got ∙ mine) h) [
              | inl gone ↦ inl (ap (λ x. table x.1 id) e ∙ gone)
              | inr (s', stays, holds) ↦ inr (inl (s', ap (λ x. x.0) e ∙ stays, holds))
            ]
      ]

  released :
      (ss : List RecordProviderStatus) (count : ℕ) (w : W)
      → any (has name id) ss ≡ true
      → (table (release_all cluster cache r ss count w).1 id ≡ none)
        ⊎ ((any (has name id) (present (release_all cluster cache r ss count w).0.0) ≡ true)
            ⊎ NoProvider cluster cache r name id ss w)
  unfolding release_all
  released [] count w there = absurd (false≢true there)
  released (s ∷ ss) count w there =
      let w1 = (release cluster cache r s w).1 in
      elim (Bool-cases (has name id s)) [
        | inr another ↦
            let later : any (has name id) ss ≡ true = ground (arith, there, another) in
            elim (Option-cases (release cluster cache r s w).0) [
              | inl dropped ↦ rw dropped (elim (released ss (count - 1) w1 later) [
                | inl gone ↦ inl gone
                | inr (inl stays) ↦ inr (inl stays)
                | inr (inr missing) ↦ inr (inr (inr missing))
              ])
              | inr (s', kept) ↦ rw kept (elim (released ss count w1 later) [
                | inl gone ↦ inl gone
                | inr (inl stays) ↦ inr (inl (ground (arith, stays)))
                | inr (inr missing) ↦ inr (inr (inr missing))
              ])
            ]
        | inl holds ↦ elim (release-Kept s w holds) [
          | inr (inr (unseen, missing)) ↦ inr (inr (inl (holds, unseen, missing)))
          | inr (inl (s', kept, holds')) ↦ rw kept (inr (inl (ground (arith, holds'))))
          | inl gone ↦ elim (Option-cases (release cluster cache r s w).0) [
            | inl dropped ↦ rw dropped (inl (release_all-none ss (count - 1) w1 gone))
            | inr (s', kept) ↦ rw kept (inl (release_all-none ss count w1 gone))
          ]
        ]
      ]

  pub release_all-Kept :
      (ss : List RecordProviderStatus) (count : ℕ) (w : W)
      → Kept cluster cache r name table around id named ss w
      → Kept cluster cache r name table around id named
          (present (release_all cluster cache r ss count w).0.0)
          (release_all cluster cache r ss count w).1
        ⊎ NoProvider cluster cache r name id ss w
  release_all-Kept ss count w (inl gone) = inl (inl (release_all-none ss count w gone))
  release_all-Kept ss count w (inr there) = elim (released ss count w there) [
    | inl gone ↦ inl (inl gone)
    | inr (inl stays) ↦ inl (inr stays)
    | inr (inr missing) ↦ inr missing
  ]
