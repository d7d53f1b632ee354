-- ===== src/ConvertName/Tests.antt =====
-- The name `a:b`, and the file name with a full-width colon.
use cloudfuse.Base.{◌≡◌, refl, [], ◌∷◌}
use cloudfuse.ConvertName.{windows_file_to_cloud, windows_cloud_to_file}
use cloudfuse.ConvertName.RoundTrip.{
  HasNoReserved, windows_file_to_cloud-windows_cloud_to_file,
  windows_cloud_to_file-windows_file_to_cloud,
}

windows_file_to_cloud-windows_cloud_to_file_example :
    (windows_file_to_cloud (windows_cloud_to_file (97 ∷ 58 ∷ 98 ∷ [])) ≡ 97 ∷ 58 ∷ 98 ∷ [])
    × HasNoReserved (windows_cloud_to_file (97 ∷ 58 ∷ 98 ∷ []))
windows_file_to_cloud-windows_cloud_to_file_example =
    windows_file_to_cloud-windows_cloud_to_file (97 ∷ 58 ∷ 98 ∷ []) (refl, (refl, (refl, tt)))

windows_cloud_to_file-windows_file_to_cloud_example :
    windows_cloud_to_file (windows_file_to_cloud (97 ∷ 65306 ∷ [])) ≡ 97 ∷ 65306 ∷ []
windows_cloud_to_file-windows_file_to_cloud_example =
    windows_cloud_to_file-windows_file_to_cloud (97 ∷ 65306 ∷ []) (refl, (refl, tt))
