-- ===== src/Effect/Reply.antt =====
-- `redisReply` of hiredis, as far as the sources read it.
use cpp_hiredis_cluster.Base.{ℕ}
use cpp_hiredis_cluster.Int.{ℤ}
use cpp_hiredis_cluster.Text.{Text}

-- One constructor for each value of `reply->type`, with the fields that hiredis fills for it.
mutual
  pub data Reply : Type 0 where
    string : Text → Reply
    array : Replies → Reply
    integer : ℤ → Reply
    nil : Reply
    status : Text → Reply
    error : Text → Reply

  pub data Replies : Type 0 where
    end : Replies
    element : Reply → Replies → Replies

-- A reply object on the heap.
pub record RedisReply : Type 0 where
  pub address : ℕ
  pub value : Reply
