-- ===== src/Store/UploadStrategy.antt =====
-- store/upload_strategy.go: how an object is sent to Telegram. Texts are ASCII: ToLower and TrimSpace
-- leave other bytes alone here.
use tg_files.Common.{
  Text, codes, Bool, true, false, not, ◌&&◌, ◌||◌, List, [], ◌∷◌, if◌then◌else◌, text_eq, Result,
  ok, err, map, ◌==◌,
}
use tg_files.Golang.Int64.{ℤ, pos, ltb_ℤ, leb_ℤ}
use tg_files.Golang.Strings.{has_prefix, lower_byte, trim, is_space}
use tg_files.Store.Types.{StoreError, entity_too_large}

-- UploadConfig of store/types.go; a map from Telegram's types to limits is an association list.
pub record UploadConfig : Type 0 where
  pub strategy : Text
  pub max_file_size : ℤ
  pub type_limits : List (Text × ℤ)
  pub put_buffer_size : ℤ

pub record UploadStrategy : Type 0 where
  pub telegram_type : Text
  pub upload_strategy : Text

-- config.TypeLimits[t]: a missing key reads as 0.
unfoldable pub type_limit : List (Text × ℤ) → Text → ℤ
type_limit [] t = pos 0
type_limit ((u, n) ∷ limits) t = if text_eq u t then n else type_limit limits t

unfoldable pub within_limit : ℤ → ℤ → Bool
within_limit size limit = leb_ℤ limit (pos 0) || leb_ℤ size limit

abbrev pub document : Text
document = codes "document"

-- filepath.Ext: from the last dot of the last element on. `ext_of` is the extension behind the bytes
-- read so far, where `found` is what the last dot began.
unfoldable pub ext : Text → Text → Text
ext found [] = found
ext found (c ∷ s) = ext (if c == b'/' then [] else if c == b'.' then c ∷ s else found) s

unfoldable pub to_lower : Text → Text
unfolding lower_byte
to_lower = map lower_byte

unfoldable pub one_of : Text → List Text → Bool
one_of t [] = false
one_of t (u ∷ us) = if text_eq t u then true else one_of t us

-- the switch on the extension
unfoldable pub type_of_extension : Text → Text
unfolding one_of
type_of_extension e =
    if text_eq e (codes ".gif")
    then codes "animation"
    else if one_of e (
        codes ".jpg"
        ∷ codes ".jpeg"
        ∷ codes ".png"
        ∷ codes ".webp"
        ∷ codes ".bmp"
        ∷ codes ".tif"
        ∷ codes ".tiff"
        ∷ [])
    then codes "photo"
    else if one_of e (
        codes ".mp4"
        ∷ codes ".mov"
        ∷ codes ".mkv"
        ∷ codes ".avi"
        ∷ codes ".webm"
        ∷ codes ".m4v"
        ∷ [])
    then codes "video"
    else if one_of e (
        codes ".mp3"
        ∷ codes ".wav"
        ∷ codes ".flac"
        ∷ codes ".m4a"
        ∷ codes ".ogg"
        ∷ codes ".aac"
        ∷ [])
    then codes "audio"
    else document

unfoldable pub infer_telegram_type : Text → Text → Text
unfolding type_of_extension to_lower
infer_telegram_type filename content_type =
    let media_type = to_lower (trim is_space content_type) in
    if text_eq media_type (codes "image/gif")
    then codes "animation"
    else if has_prefix media_type (codes "image/")
    then codes "photo"
    else if has_prefix media_type (codes "video/")
    then codes "video"
    else if has_prefix media_type (codes "audio/")
    then codes "audio"
    else if not (text_eq media_type [])
    then document
    else type_of_extension (to_lower (ext [] filename))

unfoldable pub resolve_document : Result StoreError UploadStrategy
resolve_document = ok (record { telegram_type = document; upload_strategy = document })

unfoldable pub resolve_auto : UploadConfig → Text → Text → ℤ → Result StoreError UploadStrategy
unfolding resolve_document within_limit
resolve_auto config filename content_type size =
    let telegram_type = infer_telegram_type filename content_type in
    if not (text_eq telegram_type document)
      && within_limit size (type_limit config.type_limits telegram_type)
    then ok (record { telegram_type = telegram_type; upload_strategy = codes "typed" })
    else resolve_document

-- (UploadStrategyResolver).Resolve; "document" and every unknown strategy take the last branch.
unfoldable pub resolve : UploadConfig → Text → Text → ℤ → Result StoreError UploadStrategy
unfolding resolve_auto resolve_document
resolve config filename content_type size =
    if ltb_ℤ (pos 0) config.max_file_size && ltb_ℤ config.max_file_size size
    then err entity_too_large
    else (let strategy = if text_eq config.strategy [] then document else config.strategy in
        if text_eq strategy (codes "auto")
        then resolve_auto config filename content_type size
        else resolve_document)
