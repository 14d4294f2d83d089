-- ===== src/Photo.antt =====
-- internal/photo: the walks over a photo's bytes that find its EXIF block.
pub mod Bytes
pub mod Jpeg
pub mod Boxes
pub mod Items
pub mod Tiff
pub mod Meta
pub mod Sidecar
