-- ===== src/Read.antt =====
-- Reads of pixels: what a request selects (src/zarr/pixel_selection.cc), the pieces it is cut into
-- (src/read/pieces.cc), and reading them (src/read/pieces_read.cc).
pub mod Selection
pub mod Pieces
pub mod InPieces
