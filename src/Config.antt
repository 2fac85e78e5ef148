-- ===== src/Config.antt =====
-- packages/default/src/config/: the limits of a build and the commands of a push.
pub mod Build
pub mod Cache
