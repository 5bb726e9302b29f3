-- ===== src/Recovery/Sweep.antt =====
-- The whole sweep of the recovery.
use xtable.Prelude.{
  ℕ, ◌≡◌, ◌≢◌, refl, sym, ◌∙◌, ap, subst, inl, inr, String, true, false, Option, none, some, List,
  [], ◌∷◌, Map, Elem, lookup, ◌==◌, ==→eq, ==→ne, string_key, Bool-cases,
}
use mathlib.Core.Option
use xtable.Records.{TxnStatus, active, committing, committed, aborted, TxnStateRecord}
use xtable.Store.{LocalStore}
use xtable.Store.Meta.{iter_wal}
use xtable.Store.Txns.{get_txn_state}
use xtable.World.{World, redb_read}
use xtable.World.Frame.{Keeps, Order, Keeps-redb_read, Keeps-return, Keeps-bind}
use xtable.World.Inversion.{Returns, bind-Returns, return-Returns, redb_read-Returns}
use xtable.Coordinator.Isolation.{
  SameRow, SameChains, row_footprint, chains_footprint, chains_order,
}
use xtable.Coordinator.Outcome.{Keeps-Returns}
use xtable.Recovery.{
  RecoveryReport, Scan, scan, no_report, settle_stored, settle_row, settle_open, recover_txn,
  recover_all, recover_scanned, recover,
}
use xtable.Recovery.Frame.{Keeps-recover_txn}
use xtable.Recovery.Settled.{IsSettled, is_open, recover_txn-IsSettled}

abbrev SameStore : LocalStore → LocalStore → Type 0
SameStore a b = a ≡ b

store_order : Order SameStore
store_order = record { same = λ a. refl; after = λ a b c p q. p ∙ q }

-- a turn for a transaction that the log says is committed or aborted
pub recover_txn-skips :
    (t : String) (now : ℕ) (uploaded : List String) (logged : TxnStatus) (report : RecoveryReport)
    (w : World)
    → is_open logged ≡ false
    → w.store ≡ (recover_txn now t uploaded logged report w).1.store
unfolding recover_txn
recover_txn-skips t now uploaded logged report w closed =
    (Keeps-bind store_order (Keeps-redb_read store_order (get_txn_state t)) stored).at w
  where
    skips :
        (rec : TxnStateRecord) (st : TxnStatus)
        → is_open st ≡ false
        → Keeps SameStore (settle_open t now uploaded rec report st)
    skips rec active e = absurd cc
    skips rec committing e = absurd cc
    skips rec committed e = Keeps-return store_order report
    skips rec aborted e = Keeps-return store_order report

    row :
        (rec : TxnStateRecord) (st : TxnStatus)
        → Keeps SameStore (settle_row t now uploaded logged report rec st)
    row rec active = skips rec logged closed
    row rec committing = skips rec logged closed
    row rec committed = Keeps-return store_order _
    row rec aborted = Keeps-return store_order report

    stored :
        (o : Option TxnStateRecord) → Keeps SameStore (settle_stored t now uploaded logged report o)
    stored none = Keeps-return store_order report
    stored (some rec) = row rec rec.status

Returns-skips :
    (t u : String) (now : ℕ) (uploaded : List String) (logged : TxnStatus)
    (report report' : RecoveryReport) (w w' : World)
    → is_open logged ≡ false
    → Returns (recover_txn now u uploaded logged report) w report' w'
    → SameRow t w.store w'.store
Returns-skips t u now uploaded logged report report' w w' closed r = ap (get_txn_state t) (
    recover_txn-skips u now uploaded logged report w closed ∙ ap (λ (p : _ × World). (p.1).store) r)

-- a turn for another transaction
Returns-other :
    (t u : String) (now : ℕ) (uploaded : List String) (logged : TxnStatus)
    (report report' : RecoveryReport) (w w' : World)
    → u ≢ t
    → Returns (recover_txn now u uploaded logged report) w report' w'
    → SameRow t w.store w'.store
Returns-other t u now uploaded logged report report' w w' apart r =
    Keeps-Returns {S = SameRow t} _ w w' report'
      (Keeps-recover_txn (row_footprint u t apart) now uploaded logged report) r

IsSettled-SameRow : (t : String) (a b : LocalStore) → SameRow t a b → IsSettled t a → IsSettled t b
IsSettled-SameRow t a b e (row, there, final) = (row, sym e ∙ there, final)

-- a turn keeps a final row final
turn-IsSettled :
    (t u : String) (now : ℕ) (uploaded : List String) (logged : TxnStatus)
    (report report' : RecoveryReport) (w w' : World)
    → IsSettled t w.store
    → Returns (recover_txn now u uploaded logged report) w report' w'
    → IsSettled t w'.store
turn-IsSettled t u now uploaded logged report report' w w' (row, there, final) r =
    elim (Bool-cases (u == t)) [
      | inr other ↦
          IsSettled-SameRow t w.store w'.store
            (Returns-other t u now uploaded logged report report' w w' (==→ne u t other) r)
            (row, there, final)
      | inl same ↦ elim (Bool-cases (is_open logged)) [
        | inr closed ↦
            IsSettled-SameRow t w.store w'.store
              (Returns-skips t u now uploaded logged report report' w w' closed r)
              (row, there, final)
        | inl open_in_log ↦
            let e = ==→eq u t same in
            subst (λ x. IsSettled x w'.store) e
              (recover_txn-IsSettled u now uploaded logged report report' row w w' open_in_log
                (subst (λ x. get_txn_state x w.store ≡ some row) (sym e) there) r)
      ]
    ]

all-keeps :
    (t : String) (now : ℕ) (uploads : Map String (List String)) (rows : List (String × TxnStatus))
    (report report' : RecoveryReport) (w w' : World)
    → IsSettled t w.store
    → Returns (recover_all now uploads rows report) w report' w'
    → IsSettled t w'.store
unfolding recover_all
all-keeps t now uploads [] report report' w w' s r =
    subst (λ (x : World). IsSettled t x.store) (return-Returns report report' w w' r).1 s
all-keeps t now uploads ((u, logged) ∷ rows) report report' w w' s r =
    let (mid_report, mid, first, rest) = bind-Returns _ _ w w' report' r in
    all-keeps t now uploads rows mid_report report' mid w'
      (turn-IsSettled t u now _ logged report mid_report w mid s first) rest

all-IsSettled :
    (t : String) (logged : TxnStatus) (now : ℕ) (uploads : Map String (List String))
    (rows : List (String × TxnStatus)) (report report' : RecoveryReport) (txn : TxnStateRecord)
    (w w' : World)
    → Elem (t, logged) rows
    → is_open logged ≡ true
    → get_txn_state t w.store ≡ some txn
    → Returns (recover_all now uploads rows report) w report' w'
    → IsSettled t w'.store
unfolding recover_all
all-IsSettled t logged now uploads [] report report' txn w w' m o there r = elim m [ ]
all-IsSettled t logged now uploads ((u, st) ∷ rows) report report' txn w w' m o there r =
    let (mid_report, mid, first, rest) = bind-Returns _ _ w w' report' r in
    let uploaded = Option.get_or (lookup u uploads) [] in
    let done : IsSettled t mid.store → IsSettled t w'.store =
      λ s. all-keeps t now uploads rows mid_report report' mid w' s rest in
    let later : Elem (t, logged) rows → SameRow t w.store mid.store → IsSettled t w'.store =
      λ l same.
        all-IsSettled t logged now uploads rows mid_report report' txn mid w' l o (sym same ∙ there)
          rest in
    elim (Bool-cases (u == t)) [
      | inr other ↦
          later (not_first m other)
            (Returns-other t u now uploaded st report mid_report w mid (==→ne u t other) first)
      | inl same ↦ elim (Bool-cases (is_open st)) [
        | inl open_in_log ↦
            let e = ==→eq u t same in
            done (
              subst (λ x. IsSettled x mid.store) e
                (recover_txn-IsSettled u now uploaded st report mid_report txn w mid open_in_log
                  (subst (λ x. get_txn_state x w.store ≡ some txn) (sym e) there) first))
        | inr closed ↦
            later (not_closed m closed)
              (Returns-skips t u now uploaded st report mid_report w mid closed first)
      ]
    ]
  where
    not_first : Elem (t, logged) ((u, st) ∷ rows) → (u == t) ≡ false → Elem (t, logged) rows
    not_first (inr l) e = l
    not_first (inl p) e = absurd (==→ne u t e (sym (ap (λ (x : String × TxnStatus). x.0) p)))

    not_closed : Elem (t, logged) ((u, st) ∷ rows) → is_open st ≡ false → Elem (t, logged) rows
    not_closed (inr l) e = l
    not_closed (inl p) e =
        absurd (clash (sym o ∙ ap is_open (ap (λ (x : String × TxnStatus). x.1) p) ∙ e))
      where
        clash : true ≡ false → ⊥
        clash k = cc

-- what the log of a store says of the transactions
abbrev pub scanned : LocalStore → Scan
scanned s = scan (iter_wal s) (record { last_status = []; last_uploaded = [] })

-- After a recovery that succeeds, a transaction that has a row and that the log leaves Active or
-- Committing is committed or aborted.
pub recover-IsSettled :
    (t : String) (logged : TxnStatus) (now : ℕ) (txn : TxnStateRecord) (report : RecoveryReport)
    (w w' : World)
    → Elem (t, logged) (scanned w.store).last_status
    → is_open logged ≡ true
    → get_txn_state t w.store ≡ some txn
    → Returns (recover now) w report w'
    → IsSettled t w'.store
unfolding recover
recover-IsSettled t logged now txn report w w' m o there r =
    let (rows, mid, first, rest) = bind-Returns (redb_read iter_wal) _ w w' report r in
    let (value, same) = redb_read-Returns iter_wal w mid rows first in
    let s : Scan = scanned w.store in
    all-IsSettled t logged now s.last_uploaded s.last_status no_report report txn mid w' m o
      (sym (ap (get_txn_state t) same) ∙ there)
      (subst
        (λ rows.
          Returns
            (recover_scanned now (scan rows (record { last_status = []; last_uploaded = [] }))) mid
            report w')
        (sym value) rest)

Keeps-recover_all :
    (now : ℕ) (uploads : Map String (List String)) (rows : List (String × TxnStatus))
    (report : RecoveryReport)
    → Keeps SameChains (recover_all now uploads rows report)
unfolding recover_all
Keeps-recover_all now uploads [] report = Keeps-return chains_order report
Keeps-recover_all now uploads ((t, logged) ∷ rows) report =
    Keeps-bind chains_order (Keeps-recover_txn (chains_footprint t) now _ logged report)
      (λ report'. Keeps-recover_all now uploads rows report')

-- The recovery changes no chain, whatever fails: what was published before the crash stays published,
-- and nothing else becomes published.
pub recover-chains :
    (now : ℕ) (w : World) → w.store.version_chains ≡ (recover now w).1.store.version_chains
unfolding recover
recover-chains now w =
    (Keeps-bind chains_order (Keeps-redb_read chains_order iter_wal)
        (λ rows. Keeps-recover_all now _ _ no_report)).at
      w
