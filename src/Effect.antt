-- ===== src/Effect.antt =====
-- Results of C++ code, the calls of hiredis that the sources make, and state passing over both.
pub mod Reply
pub mod Exception
pub mod Monad
pub mod Calls
pub mod Live
pub mod Defined
