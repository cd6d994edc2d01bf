-- ===== src/GrpcApi/Tenant.antt =====
-- grpcapi/interceptor.go: the tenant of a request, from its headers.
use cloudy_neigh.Prelude.{Option, none, some, List, [], ◌∷◌, Bytes, is_empty, if◌then◌else◌}
use cloudy_neigh.GrpcApi.Status.{
  Answer, refused, replied, valid_name, unauthenticated_code, invalid_argument_code,
}

-- TenantFrom, of the tenant that the context holds
abbrev pub tenant_from : Option Bytes → Bytes
tenant_from none = []
tenant_from (some tenant) = tenant

-- The tenant of the values of the header.
unfoldable pub tenant_of : List Bytes → Answer Bytes
tenant_of [] = refused unauthenticated_code
tenant_of (v ∷ []) = if is_empty v then refused unauthenticated_code else valid_name v
tenant_of (v ∷ w ∷ vals) =
    if is_empty v then refused unauthenticated_code else refused invalid_argument_code

abbrev pub with_tenant {ℓ κ} :
    {A : Type ℓ} {S : Type κ} → (Option Bytes → S → Answer A × S) → Answer Bytes → S → Answer A × S
with_tenant handler (refused c) s = (refused c, s)
with_tenant handler (replied tenant) s = handler (some tenant) s

-- TenantInterceptor, in front of a handler
unfoldable pub tenant_interceptor {ℓ κ} :
    {A : Type ℓ} {S : Type κ} → (Option Bytes → S → Answer A × S) → List Bytes → S → Answer A × S
tenant_interceptor handler vals s = with_tenant handler (tenant_of vals) s
