-- ===== src/VizServer/Closed.antt =====
-- What a run of the server leaves of its receipt.
use text.Mathlib.Text.{◌==◌ as str_eq}
use maze_client.Prelude.{◌≡◌, refl, ◌||◌, not, ◌⊎◌, inl, inr, none, Bool-cases}
use maze_client.VizServer.Ready.{
  ReadyFolder, Options, Host, write_ready_receipt, close_server, announce, is_halved, open_server,
  serve,
}

-- A run of the server, whether it answers until it is stopped or fails on the way, leaves the folder
-- of its receipt as it was, or leaves neither a receipt nor a temporary file in it.
pub serve-IsClosed :
    (h : Host) (o : Options) (folder : ReadyFolder)
    → (serve h o folder ≡ folder)
      ⊎ (((serve h o folder).ready ≡ none) × ((serve h o folder).temporary ≡ none))
unfolding serve open_server announce write_ready_receipt close_server
serve-IsClosed h o folder = elim (Bool-cases (is_halved o || not h.listed || not h.bound)) [
  | inl refused ↦ rw (serve, open_server, refused) (inl refl)
  | inr opened ↦ elim (Bool-cases (str_eq o.ready_file "")) [
    | inl silent ↦ rw (serve, open_server, opened, silent) (inl refl)
    | inr named ↦ elim (Bool-cases h.written) [
      | inl written ↦ rw (serve, open_server, opened, named, written) (inr (refl, refl))
      | inr broken ↦
          rw (serve, open_server, opened, named, broken, close_server, named) (inr (refl, refl))
    ]
  ]
]
