-- ===== src/Command/Served.antt =====
-- Commands whose slot's connection answers, up to the `switch` on the answer.
use cpp_hiredis_cluster.Base.{ℕ, true, false, [], ◌∷◌, Option, some, ◌≡◌, refl, ap, ◌∙◌}
use cpp_hiredis_cluster.Text.{Text}
use cpp_hiredis_cluster.Effect.Reply.{Reply, RedisReply}
use cpp_hiredis_cluster.Effect.Monad.{ok, Conn, received, freed, Hiredis, World, Action, after}
use cpp_hiredis_cluster.Effect.Calls.{request}
use cpp_hiredis_cluster.Container.Types.{SlotConnection}
use cpp_hiredis_cluster.Container.Interface.{ConnectionContainer}
use cpp_hiredis_cluster.Process.Critical.{says_down}
use cpp_hiredis_cluster.Process.{
  Processed, ProcessState, process_result, is_broken, check_critical, check_reply,
}
use cpp_hiredis_cluster.Cluster.{Cluster, get_connection, create_new_connection, release_slot}
use cpp_hiredis_cluster.Command.{dispatch, with_reply, process}

module _ {E : Type 0} (h : Hiredis E) (c : ConnectionContainer E)
    (user_moved : ℕ → Action (Cluster c.State) E (Unit {0})) where
  abbrev St : Type 0
  St = Cluster c.State

  -- A run of a command up to the answer of the slot's connection `con`, which is served, has no
  -- error, answers with `value`, which does not say `CLUSTERDOWN`, and is released.
  pub record Served (key cmd : Text) (state : ProcessState) (cl : St) (w : World E) : Type 0 where
    pub con : SlotConnection
    pub address : ℕ
    pub value : Reply
    pub p : Processed
    pub cl₁ : St
    pub cl₂ : St
    pub w₁ : World E
    pub w₃ : World E
    pub served : get_connection c key cl w ≡ (ok con, cl₁, w₁)
    pub answered :
        (h.request con.1 cmd w₁.outside).0 ≡ some (record { address = address; value = value })
    pub unbroken : h.has_error con.1 (h.request con.1 cmd w₁.outside).1 ≡ false
    pub up : says_down value ≡ false
    pub released :
        release_slot c con cl₁
          (record { outside = (h.request con.1 cmd w₁.outside).1; log = received address ∷ w₁.log })
        ≡ (ok tt, cl₂, w₃)
    pub understood : process_result value ≡ ok p
    pub state_is : p.state ≡ state

  -- Such a run whose answer is a redirection: a usable connection `new` to the host that it names is
  -- there.
  pub record Redirected (key cmd : Text) (state : ProcessState) (cl : St) (w : World E)
      : Type 0 where
    pub first : Served key cmd state cl w
    pub name : Text
    pub new : Conn
    pub cl₃ : St
    pub w₅ : World E
    pub connected :
        create_new_connection c first.p.host first.p.port first.cl₂
          (record first.w₃ { log = freed first.address ∷ first.w₃.log })
        ≡ (ok (name, some new), cl₃, w₅)
    pub usable : h.has_error new w₅.outside ≡ false

  pub check_served :
      (r : RedisReply) (v : Reply) (s : St) (w : World E)
      → says_down v ≡ false
      → check_reply h r v false true [] s w ≡ (ok tt, s, w)
  unfolding check_reply
  check_served r (Reply.error text) s w up = rw up refl
  check_served r (Reply.string text) s w up = refl
  check_served r (Reply.array elements) s w up = refl
  check_served r (Reply.integer n) s w up = refl
  check_served r Reply.nil s w up = refl
  check_served r (Reply.status text) s w up = refl

  module _ (key cmd : Text) (state : ProcessState) (cl : St) (w : World E)
      (run : Served key cmd state cl w) where
    open run use {con, address, value, p, cl₁, cl₂, w₁, w₃}

    abbrev pub answer : RedisReply
    answer = record { address = address; value = value }

    answered_world : World E
    answered_world = record {
      outside = (h.request con.1 cmd w₁.outside).1;
      log = received address ∷ w₁.log;
    }

    checked :
        {A : Type 0} (f : Option RedisReply → Action St E A)
        → after
            (λ reply s w.
              after (λ _. f reply) (check_critical h reply false true [] (some con.1) s w))
            (request h con.1 cmd cl₁ w₁)
          ≡ f (some answer) cl₁ answered_world
    unfolding request check_critical is_broken answered_world
    checked f =
        rw (run.answered, run.unbroken)
          (ap (after (λ _. f (some answer))) (check_served answer value cl₁ answered_world run.up))

    pub process-dispatch :
        process h c user_moved key cmd cl w ≡ dispatch h c user_moved state answer cmd p cl₂ w₃
    unfolding process with_reply answered_world
    process-dispatch =
        let understood : Processed → Action St E (Option RedisReply) =
          λ p. dispatch h c user_moved p.state answer cmd p in
        let behind : Option RedisReply → Action St E (Option RedisReply) = λ reply s w.
          after
            (λ _. with_reply reply λ r s w.
              after (λ p. dispatch h c user_moved p.state r cmd p) (process_result r.value, s, w))
            (release_slot c con s w) in
        ap (after _) run.served
        ∙ checked behind
        ∙ ap (after _) run.released
        ∙ ap (λ o. after understood (o, cl₂, w₃)) run.understood
        ∙ ap (λ k. dispatch h c user_moved k answer cmd p cl₂ w₃) run.state_is
