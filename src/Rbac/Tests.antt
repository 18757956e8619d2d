-- ===== src/Rbac/Tests.antt =====
-- The theorem on roles at concrete ones.
