-- ===== src/Scanner/Appended.antt =====
-- The appends of a full scan, one after the other.
use hubsync.Prelude.{
  ℕ, ◌+◌, ◌≡◌, refl, sym, ap, ◌∙◌, Bool, true, false, Option, none, some, List, [], ◌∷◌, ◌++◌, ◌==◌,
  bytes_eq, ==_iff, Bool-cases, inl, inr,
}
use hubsync.Prelude.Table.{find, NodupKeys}
use hubsync.Model.{FilePath, ChangeEntry, HubEntry, hub_path, state_eq}
use hubsync.Store.{HubStore, append}
use hubsync.Store.Materialized.{IsConsistent, append-IsConsistent}
use hubsync.Store.Rows.{Settles, write_entry-AfterOp, write_entry_other}
use hubsync.Push.{Hub}
use hubsync.Scanner.{change_path, append_all}

abbrev pub row_of_path : FilePath → HubStore → Option HubEntry
row_of_path k s = find hub_path k s.hub_entry

-- An append that works, and the rest of the loop.
pub append_all_cons :
    (env : ℕ → Bool × ℕ) (c : ChangeEntry) (cs : List ChangeEntry) (hub : Hub)
    → (env 0).0 ≡ false
    → append_all env (c ∷ cs) hub
      ≡ append_all
          (λ i. env (i + 1))
          cs
          (record hub {
            store = (append false (env 0).1 c hub.store).1;
            sent = hub.sent ++ record c { version = hub.store.last_version + 1 } ∷ [];
          })
unfolding append_all append
append_all_cons env c cs hub works =
    ap
      (λ b. elim (append b (env 0).1 c hub.store).0 as (λ _. Bool × Hub) [
        | none ↦ (false, record hub { store = (append b (env 0).1 c hub.store).1 })
        | some version ↦
            append_all (λ i. env (i + 1)) cs
              (record hub {
                store = (append b (env 0).1 c hub.store).1;
                sent = hub.sent ++ record c { version = version } ∷ [];
              })
      ])
      works

pub append_all-Settles :
    (env : ℕ → Bool × ℕ) (cs : List ChangeEntry) (hub : Hub) (k : FilePath)
    → ((i : ℕ) → (env i).0 ≡ false)
    → NodupKeys change_path cs
    → ((append_all env cs hub).0 ≡ true)
      × Settles
          (find change_path k cs)
          (row_of_path k hub.store)
          (row_of_path k (append_all env cs hub).1.store)
unfolding append_all append find
append_all-Settles env [] hub k calm h = (refl, refl)
append_all-Settles env (c ∷ cs) hub k calm h =
    let version = hub.store.last_version + 1 in
    let store' = (append false (env 0).1 c hub.store).1 in
    let hub' : Hub = record hub {
      store = store';
      sent = hub.sent ++ record c { version = version } ∷ [];
    } in
    let (done, rest) = append_all-Settles (λ i. env (i + 1)) cs hub' k (λ i. calm (i + 1)) h.1 in
    rw (append_all_cons env c cs hub (calm 0)) (
      done,
      elim (Bool-cases (c.path == k)) [
        | inl same ↦
            let e : c.path ≡ k = (==_iff c.path k).0 same in
            let absent : find change_path k cs ≡ none =
              ap (λ j. find change_path j cs) (sym e) ∙ h.0 in
            let last : Settles none (row_of_path k store')
                (row_of_path k (append_all (λ i. env (i + 1)) cs hub').1.store) =
              rw absent at rest in
            rw same (
              rw (last ∙ ap (λ j. row_of_path j store') (sym e))
                (write_entry-AfterOp (env 0).1 version c c.op hub.store.hub_entry))
        | inr other ↦
            let kept : row_of_path k store' ≡ row_of_path k hub.store =
              write_entry_other (env 0).1 version c c.op k hub.store.hub_entry other in
            let rest' : Settles (find change_path k cs) (row_of_path k hub.store)
                (row_of_path k (append_all (λ i. env (i + 1)) cs hub').1.store) =
              rw kept at rest in
            rw other rest'
      ],
    )

pub append_all_failed :
    (env : ℕ → Bool × ℕ) (c : ChangeEntry) (cs : List ChangeEntry) (hub : Hub)
    → (env 0).0 ≡ true
    → append_all env (c ∷ cs) hub ≡ (false, hub)
unfolding append_all append
append_all_failed env c cs hub broken =
    ap
      (λ b. elim (append b (env 0).1 c hub.store).0 as (λ _. Bool × Hub) [
        | none ↦ (false, record hub { store = (append b (env 0).1 c hub.store).1 })
        | some version ↦
            append_all (λ i. env (i + 1)) cs
              (record hub {
                store = (append b (env 0).1 c hub.store).1;
                sent = hub.sent ++ record c { version = version } ∷ [];
              })
      ])
      broken

pub append_all-IsConsistent :
    (env : ℕ → Bool × ℕ) (cs : List ChangeEntry) (hub : Hub)
    → IsConsistent hub.store
    → IsConsistent (append_all env cs hub).1.store
unfolding append_all
append_all-IsConsistent env [] hub h = h
append_all-IsConsistent env (c ∷ cs) hub h = elim (Bool-cases (env 0).0) [
  | inl broken ↦ rw (append_all_failed env c cs hub broken) h
  | inr works ↦ rw (append_all_cons env c cs hub works) (
      append_all-IsConsistent (λ i. env (i + 1)) cs _
        (append-IsConsistent false (env 0).1 c hub.store h))
]
