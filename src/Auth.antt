-- ===== src/Auth.antt =====
-- pkg/auth: the types of interface.go, the role-based authorizer, the HTTP middleware and the provider of JSON web tokens.
pub mod Types
pub mod Rbac
pub mod Middleware
pub mod Jwt
