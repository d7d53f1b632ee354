-- ===== src/FileCache/LruPolicy/Timeout.antt =====
-- The timeout case of `clearCache` of lru_policy.go, where no other call runs in between:
-- `updateMarker`, and then `deleteExpiredNodes` with both its loops.
use Prim.Native.String.{String}
use cloudfuse.FileCache.LruPolicy.{LruPolicy}
