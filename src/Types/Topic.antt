-- ===== src/Types/Topic.antt =====
-- `Topic` of cirque-core/src/types.rs.
use cirque.Base.{ℕ, Bool, not, ◌&&◌, ltb, Bytes, is_empty, []}

pub record Topic : Type 0 where
  pub content : Bytes
  pub ts : ℕ
  pub from_nickname : Bytes

abbrev pub default : Topic
default = record { content = []; ts = 0; from_nickname = [] }

unfoldable pub is_valid : Topic → Bool
is_valid self = not (is_empty self.content) && ltb 0 self.ts
