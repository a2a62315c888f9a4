-- ===== src/Sync/Handshake.antt =====
-- Both sides of a session agree on whether their HELLOs fit.
use mariamesh.Base.{ℕ, ◌≡◌, ◌↔◌, arith, false, ◌||◌, Str, ok}
use mariamesh.Changelog.{is_empty}
use mariamesh.Changelog.Vector.{Vector}
use mariamesh.Protocol.{Hello}
use mariamesh.Sync.{Env, validate_hello}

-- The HELLO that `Session` builds from its environment, the epoch, the address and the local vector.
abbrev pub hello_of : Env → ℕ → Str → Vector → Hello
hello_of env epoch addr v = record {
  protocol = env.protocol_version;
  node_id = env.self.node_id;
  incarnation_id = env.self.incarnation_id;
  schema_version = env.schema_version;
  membership_epoch = epoch;
  addr = addr;
  vector = v;
}

-- The HELLO of `b` is accepted by `a` exactly when that of `a` is accepted by `b`, where both have an
-- identity.
pub validate_hello_sym :
    (a b : Env) (m n : ℕ) (x y : Str) (v w : Vector)
    → is_empty a.self.node_id || is_empty a.self.incarnation_id ≡ false
    → is_empty b.self.node_id || is_empty b.self.incarnation_id ≡ false
    → (validate_hello a (hello_of b m x v) ≡ ok tt) ↔ (validate_hello b (hello_of a n y w) ≡ ok tt)
unfolding validate_hello
validate_hello_sym a b m n x y v w p q = ground arith
