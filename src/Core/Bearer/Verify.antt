-- ===== src/Core/Bearer/Verify.antt =====
-- crates/roci-core/src/auth/bearer.rs: what an accepted token has shown.
use roci.Base.Eq.{Text, nat_eq, text_eq}
