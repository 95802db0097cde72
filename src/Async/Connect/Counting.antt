-- ===== src/Async/Connect/Counting.antt =====
-- The context's `lifetime` counts the connections that are tied to it.
use mathlib.Core.Path.{subst}
use cpp_hiredis_cluster.Base.{
  ℕ, suc, ◌+◌, Bool, true, false, List, [], ◌∷◌, Option, none, some, if◌then◌else◌, ◌≡◌, refl, sym,
  ap, ◌∙◌, arith, length, Bool-cases, Option-cases, inl, inr,
}
use cpp_hiredis_cluster.Int.{ℤ, pos}
use cpp_hiredis_cluster.Text.{Text}
use cpp_hiredis_cluster.Effect.Monad.{Outcome, Conn, Hiredis}
use cpp_hiredis_cluster.Async.Connect.{
  ConnectContext, ContextPointer, null, deleted, at, Linked, AsyncSockets, increment, decrement,
  holds, remove, count_down, disconnect_cb, disconnected, attached, reached, connect_at, connect,
  disconnect,
}

-- A context that is there, with or without its cluster, and whose `lifetime` is a length.
abbrev pub CountsAt : Bool → List Conn → ContextPointer → Type 0
CountsAt set tied null = ⊥
CountsAt set tied deleted = ⊥
CountsAt set tied (at c) = (c.has_cluster ≡ set) × (c.lifetime ≡ pos (length tied))

-- The context counts the connections that are tied to it, and none was misused.
abbrev pub Counts : {E : Type 0} → Bool → Linked E → Type 0
Counts set l = CountsAt set l.tied l.context × (l.misused ≡ false)

length-remove :
    (con : Conn) (l : List Conn) → holds con l ≡ true → length l ≡ length (remove con l) + 1
unfolding holds remove
length-remove con [] h = cc
length-remove con (c ∷ l) h = ground (arith, length-remove con l)

remove_absent : (con : Conn) (l : List Conn) → holds con l ≡ false → remove con l ≡ l
unfolding holds remove
remove_absent con [] h = refl
remove_absent con (c ∷ l) h = ground (arith, remove_absent con l)

decrement-suc : (z : ℤ) (n : ℕ) → z ≡ pos (suc n) → decrement z ≡ pos n
unfolding decrement
decrement-suc z n e = rw e refl

increment-pos : (z : ℤ) (n : ℕ) → z ≡ pos n → increment z ≡ pos (suc n)
unfolding increment
increment-pos z n e = rw e (ap pos (omega arith))

count_down_set :
    (c : ConnectContext)
    → c.has_cluster ≡ true
    → count_down (at c) ≡ some (at (record c { lifetime = decrement c.lifetime }))
unfolding count_down
count_down_set c e =
    ap (λ b. if b then some (at (record c { lifetime = decrement c.lifetime })) else none) e

module _ {E : Type 0} where
  disconnect_cb-count_down :
      (l : Linked E) (p : ContextPointer)
      → count_down l.context ≡ some p
      → disconnect_cb l ≡ record l { context = p }
  unfolding disconnect_cb
  disconnect_cb-count_down l p e = rw (e, disconnect_cb) refl

  count_down-CountsAt :
      (con : Conn) (o : E) (p : ContextPointer) (contexts tied : List Conn) (misused : Bool)
      → CountsAt true tied p
      → misused ≡ false
      → Counts true (
          disconnected con (record {
            outside = o;
            context = p;
            contexts = contexts;
            tied = tied;
            misused = misused;
          }))
  unfolding disconnected
  count_down-CountsAt con o null contexts tied misused counts fine = absurd counts
  count_down-CountsAt con o deleted contexts tied misused counts fine = absurd counts
  count_down-CountsAt con o (at c) contexts tied misused counts fine =
      elim (Bool-cases (holds con tied)) [
        | inl there ↦
            let fewer : length tied ≡ suc (length (remove con tied)) =
              length-remove con tied there ∙ omega arith in
            let gone : Linked E = record {
              outside = o;
              context = at c;
              contexts = remove con contexts;
              tied = remove con tied;
              misused = misused;
            } in
            rw there (
              subst (Counts true)
                (sym (disconnect_cb-count_down gone _ (count_down_set c counts.0)))
                ((counts.0, decrement-suc c.lifetime _ (counts.1 ∙ ap pos fewer)), fine))
        | inr absent ↦ rw absent (
          (
            counts.0,
            counts.1 ∙ ap (λ (l : List Conn). pos (length l)) (sym (remove_absent con tied absent)),
          ),
          fine,
        )
      ]

  pub disconnected-Counts :
      (con : Conn) (l : Linked E) → Counts true l → Counts true (disconnected con l)
  disconnected-Counts con l counts =
      count_down-CountsAt con l.outside l.context l.contexts l.tied l.misused counts.0 counts.1

module _ {E : Type 0} where
  contexts-disconnect_cb : (l : Linked E) → (disconnect_cb l).contexts ≡ l.contexts
  unfolding disconnect_cb
  contexts-disconnect_cb l = elim (Option-cases (count_down l.context)) [
    | inl missing ↦ rw (missing, disconnect_cb) refl
    | inr (p, there) ↦ rw (there, disconnect_cb) refl
  ]

  pub contexts-disconnected :
      (con : Conn) (l : Linked E) → (disconnected con l).contexts ≡ remove con l.contexts
  unfolding disconnected
  contexts-disconnected con l = elim (Bool-cases (holds con l.tied)) [
    | inl there ↦ rw there (contexts-disconnect_cb _)
    | inr absent ↦ rw absent refl
  ]

module _ {E : Type 0} (base : Hiredis E) (a : AsyncSockets E) where
  pub disconnect-Counts :
      (con : Conn) (l : Linked E)
      → holds con l.contexts ≡ true
      → Counts true l
      → Counts true (disconnect base a con l)
  unfolding disconnect
  disconnect-Counts con l open_there counts =
      rw open_there (elim (Bool-cases (a.disconnect_async con l.outside).0) [
        | inl now ↦ rw now (
            disconnected-Counts con (record l { outside = (a.disconnect_async con l.outside).1 })
              counts)
        | inr later ↦ rw later counts
      ])

  module _ (set : Bool) where
    -- Behind the call of `connect_`.
    abbrev Kept : Outcome (Option Conn) × Linked E → Type 0
    Kept t = Counts set t.1

    choose-Kept :
        (b : Bool) (x y : Outcome (Option Conn) × Linked E)
        → Kept x
        → Kept y
        → Kept (if b then x else y)
    choose-Kept true x y p q = p
    choose-Kept false x y p q = q

    attached-Kept :
        (c : ConnectContext) (con : Conn) (taken : Bool) (o : E) (contexts tied : List Conn)
        (misused : Bool)
        → CountsAt set tied (at c)
        → misused ≡ false
        → Kept (
            attached base a c con taken (record {
              outside = o;
              context = at c;
              contexts = contexts;
              tied = tied;
              misused = misused;
            }))
    unfolding attached
    attached-Kept c con true o contexts tied misused counts fine =
        ((counts.0, increment-pos c.lifetime _ counts.1), fine)
    attached-Kept c con false o contexts tied misused counts fine = (counts, fine)

    reached-Kept :
        (c : ConnectContext) (con : Option Conn) (o : E) (contexts tied : List Conn)
        (misused : Bool)
        → CountsAt set tied (at c)
        → misused ≡ false
        → Kept (
            reached base a c con (record {
              outside = o;
              context = at c;
              contexts = contexts;
              tied = tied;
              misused = misused;
            }))
    unfolding reached
    reached-Kept c none o contexts tied misused counts fine = (counts, fine)
    reached-Kept c (some con) o contexts tied misused counts fine =
        elim (Bool-cases (base.has_error con o)) [
          | inl broken ↦ rw broken (counts, fine)
          | inr sound ↦ rw sound (attached-Kept c con _ _ _ tied misused counts fine)
        ]

    connect_at-Kept :
        (p : ContextPointer) (host : Text) (port : ℤ) (o : E) (contexts tied : List Conn)
        (misused : Bool)
        → CountsAt set tied p
        → misused ≡ false
        → Kept (
            connect_at base a p host port (record {
              outside = o;
              context = p;
              contexts = contexts;
              tied = tied;
              misused = misused;
            }))
    unfolding connect_at
    connect_at-Kept null host port o contexts tied misused counts fine = absurd counts
    connect_at-Kept deleted host port o contexts tied misused counts fine = absurd counts
    connect_at-Kept (at c) host port o contexts tied misused counts fine =
        choose-Kept c.has_adapter _ _ (reached-Kept c _ _ contexts tied misused counts fine)
          (counts, fine)

    pub connect-Kept :
        (host : Text) (port : ℤ) (l : Linked E) → Counts set l → Kept (connect base a host port l)
    unfolding connect
    connect-Kept host port l counts =
        connect_at-Kept l.context host port l.outside l.contexts l.tied l.misused counts.0 counts.1

  -- What happens to a cluster in use: it connects, it disconnects, and connections are lost.
  pub data Happens (l : Linked E) : Linked E → Type 0 where
    none_yet : Happens l l
    connects :
        {m : Linked E} (host : Text) (port : ℤ)
        → Happens l m
        → Happens l (connect base a host port m).1
    disconnects :
        {m : Linked E} (con : Conn)
        → holds con m.contexts ≡ true
        → Happens l m
        → Happens l (disconnect base a con m)
    loses : {m : Linked E} (con : Conn) → Happens l m → Happens l (disconnected con m)

  -- From a context with its cluster set that counts the connections tied to it, any sequence of
  -- connects, disconnects of open connections and lost connections leads to one that counts the
  -- connections then tied, and no callback reads a context or a cluster that is not there.
  pub Happens-Counts : {l m : Linked E} → Happens l m → Counts true l → Counts true m
  Happens-Counts none_yet counts = counts
  Happens-Counts (connects host port before) counts =
      connect-Kept true host port _ (Happens-Counts before counts)
  Happens-Counts (disconnects con open_there before) counts =
      disconnect-Counts con _ open_there (Happens-Counts before counts)
  Happens-Counts (loses con before) counts =
      disconnected-Counts con _ (Happens-Counts before counts)
