-- ===== src/R0bf.antt =====
-- convert_to_r0bf.go and extract_r0bf.go: the R0BF container.
pub mod Files
pub mod Convert
pub mod Extract
pub mod RoundTrip
