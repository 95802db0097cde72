-- ===== src/Process/Critical.antt =====
-- `checkCritical`: which replies it lets pass, and who frees the others.
use cpp_hiredis_cluster.Effect.Defined.{IsDefined, Anything}
use cpp_hiredis_cluster.Base.{
  ℕ, Bool, true, false, List, ◌∷◌, Option, none, some, ◌≡◌, ◌⊎◌, [], refl, inl, inr, Bool-cases,
  Option-cases,
}
use cpp_hiredis_cluster.Text.{Text}
use cpp_hiredis_cluster.Effect.Reply.{Reply, RedisReply}
use cpp_hiredis_cluster.Effect.Exception.{Exception, cluster_down, logic_error}
use cpp_hiredis_cluster.Effect.Monad.{ok, throw, Conn, Hiredis, World, Action, after}
use cpp_hiredis_cluster.Effect.Calls.{throw_with, request}
use cpp_hiredis_cluster.Effect.Live.{live, Owns, Ends, live-freed, live-received}
use cpp_hiredis_cluster.Process.{check_reply, check_critical, is_broken, mentions_clusterdown}

-- An error that `checkCritical` throws for.
abbrev pub says_down : Reply → Bool
says_down (Reply.error text) = mentions_clusterdown text
says_down (Reply.string text) = false
says_down (Reply.array elements) = false
says_down (Reply.integer n) = false
says_down Reply.nil = false
says_down (Reply.status text) = false

module _ {S E : Type 0} (h : Hiredis E) (base : List ℕ) where
  throw_with-Owns :
      (r : RedisReply) (x : Exception) (k : Action S E (Option RedisReply)) (s : S) (w : World E)
      → live w.log ≡ some (r.address ∷ base)
      → Owns base (after (λ (_ : Unit {0}). k) (throw_with (some r) x s w))
  unfolding throw_with
  throw_with-Owns r x k s w e = live-freed r.address base w.log e

  check_reply-Ends :
      (r : RedisReply) (v : Reply) (critical : Bool) (text : Text)
      (k : Action S E (Option RedisReply))
      → Ends (r.address ∷ base) base k
      → Ends
          (r.address ∷ base)
          base
          (λ s w. after (λ _. k) (check_reply h r v critical true text s w))
  unfolding check_reply
  check_reply-Ends r (Reply.error t) true text k ends s w e =
      throw_with-Owns r (logic_error text) k s w e
  check_reply-Ends r (Reply.error t) false text k ends s w e =
      elim (Bool-cases (mentions_clusterdown t)) [
        | inl down ↦ rw down (throw_with-Owns r cluster_down k s w e)
        | inr up ↦ rw up (ends s w e)
      ]
  check_reply-Ends r (Reply.string t) critical text k ends s w e = ends s w e
  check_reply-Ends r (Reply.array t) critical text k ends s w e = ends s w e
  check_reply-Ends r (Reply.integer t) critical text k ends s w e = ends s w e
  check_reply-Ends r Reply.nil critical text k ends s w e = ends s w e
  check_reply-Ends r (Reply.status t) critical text k ends s w e = ends s w e

  -- A command whose reply goes straight to `checkCritical`: a rejected reply is freed, and only a
  -- reply that passed reaches the code behind.
  pub request_checked-Ends :
      (con : Conn) (cmd : Text) (critical : Bool) (text : Text) (watched : Option Conn)
      (f : Option RedisReply → Action S E (Option RedisReply)) (P : RedisReply → Type 0)
      → ((e : E) (r : RedisReply) → (h.request con cmd e).0 ≡ some r → P r)
      → ((e : E)
          → is_broken h watched (h.request con cmd e).1 ≡ true
          → (h.request con cmd e).0 ≡ none)
      → ((r : RedisReply) → P r → Ends (r.address ∷ base) base (f (some r)))
      → Ends base base (λ s w.
        after
          (λ reply s w.
            after (λ _. f reply) (check_critical h reply critical true text watched s w))
          (request h con cmd s w))
  unfolding request check_critical
  request_checked-Ends con cmd critical text watched f P known silent ends s w e =
      elim (Option-cases (h.request con cmd w.outside).0) [
        | inl missing ↦ elim (Bool-cases (is_broken h watched (h.request con cmd w.outside).1)) [
          | inl broken ↦ rw (missing, broken) e
          | inr fine ↦ rw (missing, fine) tt
        ]
        | inr (r, got) ↦ elim (Bool-cases (is_broken h watched (h.request con cmd w.outside).1)) [
          | inl broken ↦ cc (silent w.outside broken)
          | inr fine ↦
              rw (got, fine)
                (check_reply-Ends r r.value critical text (f (some r))
                  (ends r (known w.outside r got)) s _ (live-received r.address base w.log e))
        ]
      ]

module _ {S E : Type 0} (h : Hiredis E) where
  check_borrowed :
      (r : RedisReply) (v : Reply) (s : S) (w : World E)
      → (check_reply h r v false false [] s w ≡ (ok tt, s, w))
        ⊎ (check_reply h r v false false [] s w ≡ (throw cluster_down, s, w))
  unfolding check_reply throw_with
  check_borrowed r (Reply.error t) s w = elim (Bool-cases (mentions_clusterdown t)) [
    | inl down ↦ rw down (inr refl)
    | inr up ↦ rw up (inl refl)
  ]
  check_borrowed r (Reply.string t) s w = inl refl
  check_borrowed r (Reply.array t) s w = inl refl
  check_borrowed r (Reply.integer t) s w = inl refl
  check_borrowed r Reply.nil s w = inl refl
  check_borrowed r (Reply.status t) s w = inl refl

  -- Without a connection, and for a reply that another owns, the check changes nothing.
  pub check_critical_borrowed :
      (r : RedisReply) (s : S) (w : World E)
      → (check_critical h (some r) false false [] none s w ≡ (ok tt, s, w))
        ⊎ (check_critical h (some r) false false [] none s w ≡ (throw cluster_down, s, w))
  unfolding check_critical
  check_critical_borrowed r s w = check_borrowed r r.value s w

  check_reply-IsDefined :
      (r : RedisReply) (v : Reply) (critical frees : Bool) (text : Text)
      → IsDefined {S = S} {E = E} Anything (check_reply h r v critical frees text)
  unfolding check_reply throw_with
  check_reply-IsDefined r (Reply.error t) true true text s w = tt
  check_reply-IsDefined r (Reply.error t) true false text s w = tt
  check_reply-IsDefined r (Reply.error t) false true text s w =
      elim (Bool-cases (mentions_clusterdown t)) [ inl down ↦ rw down tt | inr up ↦ rw up tt ]
  check_reply-IsDefined r (Reply.error t) false false text s w =
      elim (Bool-cases (mentions_clusterdown t)) [ inl down ↦ rw down tt | inr up ↦ rw up tt ]
  check_reply-IsDefined r (Reply.string t) critical frees text s w = tt
  check_reply-IsDefined r (Reply.array t) critical frees text s w = tt
  check_reply-IsDefined r (Reply.integer t) critical frees text s w = tt
  check_reply-IsDefined r Reply.nil critical frees text s w = tt
  check_reply-IsDefined r (Reply.status t) critical frees text s w = tt

  -- Of a reply that is there, the check returns or throws.
  pub check_critical-IsDefined :
      (r : RedisReply) (critical frees : Bool) (text : Text) (con : Option Conn)
      → IsDefined {S = S} {E = E} Anything (check_critical h (some r) critical frees text con)
  unfolding check_critical
  check_critical-IsDefined r critical frees text con s w =
      elim (Bool-cases (is_broken h con w.outside)) [
        | inl broken ↦ rw broken tt
        | inr fine ↦ rw fine (check_reply-IsDefined r r.value critical frees text s w)
      ]
