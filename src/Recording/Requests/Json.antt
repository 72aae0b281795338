-- ===== src/Recording/Requests/Json.antt =====
-- A JSON value and its text, to say what the text of an export is: an object with the version, the
-- session and the frames.
use mathlib.Core.List.{append_assoc}
use peeps.Prelude.{ℕ, ◌≡◌, refl, sym, ap, ◌∙◌, List, [], ◌∷◌, ◌++◌, String, decimal}
use peeps.Recording.Session.{StoredFrame}
use peeps.Recording.Session.Transfer.{Bytes, ascii, frame_row, export_frame_rows}
use peeps.Recording.Requests.{join, export_text}

mutual
  pub data Json : Type 0 where
    -- A value that is written already.
    written : Bytes → Json
    number : ℕ → Json
    array : Items → Json
    object : Fields → Json

  pub data Items : Type 0 where
    no_items : Items
    item : Json → Items → Items

  -- The keys need no escape.
  pub data Fields : Type 0 where
    no_fields : Fields
    field : String → Json → Fields → Fields

unfoldable mutual
  unfolding ascii

  pub write : Json → Bytes
  write (written bytes) = bytes
  write (number n) = ascii (decimal n)
  write (array items) = b'[' ∷ (write_items items ++ b']' ∷ [])
  write (object fields) = b'{' ∷ (write_fields fields ++ b'}' ∷ [])

  pub write_items : Items → Bytes
  write_items no_items = []
  write_items (item v no_items) = write v
  write_items (item v (item next items)) = write v ++ b',' ∷ write_items (item next items)

  pub write_fields : Fields → Bytes
  write_fields no_fields = []
  write_fields (field key v no_fields) = b'"' ∷ (ascii key ++ b'"' ∷ b':' ∷ write v)
  write_fields (field key v (field next w fields)) =
      b'"' ∷ (ascii key ++ b'"' ∷ b':' ∷ (write v ++ b',' ∷ write_fields (field next w fields)))

-- A frame: its index, and its snapshot as it was written.
abbrev pub frame_value : ℕ → Bytes → Json
frame_value frame_index json =
    object (field "frame_index" (number frame_index) (field "snapshot" (written json) no_fields))

module _ {F : Type 0} where
  abbrev pub frame_values : List (StoredFrame F) → Items
  frame_values [] = no_items
  frame_values (f ∷ fs) = item (frame_value f.frame_index f.json) (frame_values fs)

  abbrev pub export_value : Bytes → List (StoredFrame F) → Json
  export_value session_json frames = object (
      field "version" (number 1) (
        field "session" (written session_json)
          (field "frames" (array (frame_values frames)) no_fields)))

frame_row-write : (n : ℕ) (json : Bytes) → frame_row n json ≡ write (frame_value n json)
unfolding frame_row write ascii
frame_row-write n json =
    ap (λ text. ascii "{\"frame_index\":" ++ text)
      (sym (append_assoc (ascii (decimal n)) (ascii ",\"snapshot\":" ++ json) (ascii "}")))

module _ {F : Type 0} where
  join-write :
      (frames : List (StoredFrame F))
      → join (export_frame_rows frames) ≡ write_items (frame_values frames)
  unfolding join export_frame_rows write
  join-write [] = refl
  join-write (f ∷ []) = frame_row-write f.frame_index f.json
  join-write (f ∷ g ∷ fs) =
      ap (λ row. row ++ (ascii "," ++ join (export_frame_rows (g ∷ fs))))
        (frame_row-write f.frame_index f.json)
      ∙ ap (λ rows. write (frame_value f.frame_index f.json) ++ b',' ∷ rows) (join-write (g ∷ fs))

  -- The text of an export is that of its value.
  pub export_text-write :
      (session_json : Bytes) (frames : List (StoredFrame F))
      → export_text session_json (export_frame_rows frames)
        ≡ write (export_value session_json frames)
  unfolding export_text write ascii decimal
  export_text-write session_json frames =
      ap
        (λ rows.
          ascii "{\"version\":1,\"session\":"
          ++ (session_json ++ (ascii ",\"frames\":[" ++ (rows ++ ascii "]}"))))
        (join-write frames)
      ∙ ap (λ text. ascii "{\"version\":1,\"session\":" ++ text)
          (sym (
            append_assoc session_json
              (ascii ",\"frames\":[" ++ (write_items (frame_values frames) ++ ascii "]"))
              (ascii "}")
            ∙ ap (λ rows. session_json ++ (ascii ",\"frames\":[" ++ rows))
                (append_assoc (write_items (frame_values frames)) (ascii "]") (ascii "}"))))
