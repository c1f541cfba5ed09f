-- ===== src/Drive/Items/Tests.antt =====
-- A video and its proxy.
use save_box.Prelude.{
  ℕ, ◌≡◌, ◌↔◌, ◌⊎◌, refl, true, false, some, [], ◌∷◌, ◌==◌, In, member, ok, String,
}
use save_box.Drive.Files.{DriveFile, video as video_type}
use save_box.Drive.Items.{
  restore_file, update_file, batch_hard_delete_files, is_proxy, rename_item, trash_item,
  restore_item, batch_restore_item, permanent_delete_item, batch_trash_items,
  batch_permanent_delete_items,
}
use save_box.Drive.Items.Proxies.{requested_files, batch_permanent_delete_items_iff}
use save_box.Prelude.{none}

program : Unit {0}
unfolding rename_item trash_item restore_item batch_restore_item permanent_delete_item
    batch_trash_items batch_permanent_delete_items
program = tt

abbrev file : ℕ → String → DriveFile
file id name = record {
  id = id;
  is_folder = false;
  encrypted_name = "";
  decrypted_name = some name;
  file_type = video_type;
  size_bytes = 0;
  parent_id = none;
  folder_id = some 1;
  is_hidden = false;
}

abbrev video : DriveFile
video = file 5 "a.mkv"

abbrev proxy : DriveFile
proxy = file 6 "a.mkv.proxy.mp4"

abbrev legacy : DriveFile
legacy = file 7 "__PROXY__a.mkv"

renamed :
    rename_item true
      (λ s. some (record { encrypted_name = s; name_hash = "" }))
      (video ∷ proxy ∷ [])
      video
      "b.mkv"
    ≡ (
      update_file 5 (record { encrypted_name = "b.mkv"; name_hash = "" })
          ∷ update_file 6 (record { encrypted_name = "b.mkv.proxy.mp4"; name_hash = "" })
          ∷ [],
      ok tt,
    )
unfolding program
renamed = refl

both_restored :
    batch_restore_item (legacy ∷ video ∷ proxy ∷ []) video
    ≡ restore_file 5 ∷ restore_file 7 ∷ restore_file 6 ∷ []
unfolding program
both_restored = refl

legacy_restored : restore_item (legacy ∷ video ∷ []) video ≡ restore_file 5 ∷ restore_file 7 ∷ []
unfolding program
legacy_restored = refl

all_deleted :
    batch_permanent_delete_items (video ∷ proxy ∷ []) (video ∷ [])
    ≡ batch_hard_delete_files (5 ∷ 6 ∷ []) ∷ []
unfolding program
all_deleted = refl

batch_permanent_delete_items_iff_example :
    (member ◌==◌
        (requested_files (batch_permanent_delete_items (video ∷ proxy ∷ []) (video ∷ [])))
        6
      ≡ true)
    ↔ ((f : DriveFile) × In f (video ∷ [])
        × (f.is_folder ≡ false)
        × ((f.id ≡ 6)
            ⊎ ((p : DriveFile) × In p (video ∷ proxy ∷ []) × (is_proxy f p ≡ true) × (p.id ≡ 6))))
batch_permanent_delete_items_iff_example =
    batch_permanent_delete_items_iff (video ∷ proxy ∷ []) (video ∷ []) 6
