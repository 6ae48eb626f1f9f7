-- ===== src/Reveal.antt =====
-- The views in which tickets are scratched open, under packages/nextjs/components/scratch/.
pub mod Canvas
pub mod Single
pub mod Batch
