-- ===== src/Request.antt =====
-- internal/domain/request and internal/app/request: how many sequences a request body asks to decode, and how
-- many bodies are held at once.
pub mod Bytes
pub mod Scanner
pub mod Values
pub mod Numbers
pub mod Prompt
pub mod Shape
pub mod Classifier
pub mod Tests
